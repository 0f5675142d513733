-- ===== src/Cli/Clean/Removed.antt =====
-- Which files `clean` of crates/cli/src/main.rs removes.
use send_rs.Prelude.{
  arith, not, List, [], ◌∷◌, ◌++◌, ◌≡◌, refl, ap, ◌∙◌, Bool, true, false, ◌&&◌, ◌||◌, String,
  Option, none, if◌then◌else◌,
}
use send_rs.Exec.{ok, ◌>>=◌}
use send_rs.Disk.{Bytes, Files}
use send_rs.Disk.Steady.{steady}
use send_rs.Cli.{Host}
use send_rs.Cli.Paths.{sessions_root, offers_root, manifests_root, history_path}
use send_rs.Cli.Session.{covers}
use send_rs.Cli.Clean.{Flags, no_flags, cmd_clean}
use send_rs.Cli.Clean.Roots.{AreRoots, AreRoots-without, part-Leaves}

-- What the command knows how to remove.
pub data Part : Type 0 where
  session_part offer_part manifest_part history_part : Part

abbrev all_false : List Bool → Bool
all_false [] = true
all_false (true ∷ flags) = false
all_false (false ∷ flags) = all_false flags

abbrev no_flag : Flags → Bool
no_flag f = all_false (f.all ∷ f.sessions ∷ f.offers ∷ f.manifests ∷ f.history ∷ [])

-- Every part is wanted under `--all` and under its own flag; with no flag at all, the sessions and the
-- offers are.
abbrev pub wants : Flags → Part → Bool
wants f Part.session_part = f.all || f.sessions || no_flag f
wants f Part.offer_part = f.all || f.offers || no_flag f
wants f Part.manifest_part = f.all || f.manifests
wants f Part.history_part = f.all || f.history

abbrev pub root_of : Host → Part → String
root_of host Part.session_part = sessions_root host
root_of host Part.offer_part = offers_root host
root_of host Part.manifest_part = manifests_root host
root_of host Part.history_part = history_path host

abbrev pub name_of : Part → String
name_of Part.session_part = "sessions"
name_of Part.offer_part = "offers"
name_of Part.manifest_part = "manifests"
name_of Part.history_part = "history"

abbrev pub every_part : List Part
every_part = Part.session_part ∷ Part.offer_part ∷ Part.manifest_part ∷ Part.history_part ∷ []

-- The names of the parts that are wanted, in their order.
abbrev pub wanted_names : Flags → List Part → List String
wanted_names f [] = []
wanted_names f (part ∷ parts) =
    let names = wanted_names f parts in if wants f part then name_of part ∷ names else names

-- Whether a path is at or below the root of a part that is wanted.
abbrev pub is_wanted : Host → Flags → List Part → String → Bool
is_wanted host f [] p = false
is_wanted host f (part ∷ parts) p =
    (wants f part && covers (root_of host part) p) || is_wanted host f parts p

-- The code's test for no flag, and the one above.
no_flags-no_flag : (f : Flags) → no_flags f ≡ no_flag f
no_flags-no_flag f = compare f.all f.sessions f.offers f.manifests f.history
  where
    compare :
        (a s o m h : Bool)
        → (not a && not s && not o && not m && not h) ≡ all_false (a ∷ s ∷ o ∷ m ∷ h ∷ [])
    compare true s o m h = refl
    compare false true o m h = refl
    compare false false true m h = refl
    compare false false false true h = refl
    compare false false false false true = refl
    compare false false false false false = refl

-- What a part that is wanted adds to the names, and what it takes from the files.
abbrev plus : Bool → String → List String → List String
plus wanted name names = if wanted then names ++ name ∷ [] else names

names_in_order :
    (a b c d : Bool) (s o m h : String)
    → plus d h (plus c m (plus b o (plus a s []))) ≡ (
        let hs = if d then h ∷ [] else [] in
        let ms = if c then m ∷ hs else hs in
        let os = if b then o ∷ ms else ms in if a then s ∷ os else os)
names_in_order a b c d s o m h = ground arith

layers :
    (a b c d : Bool) (x : Option Bytes)
    → (if d then none else (if c then none else (if b then none else (if a then none else x))))
      ≡ (if a || (b || (c || (d || false))) then none else x)
layers a b c d x = ground arith

-- On a disk where no call fails, and where the three folders and the history file are roots, `clean`
-- succeeds, removes exactly the files of the parts that the flags ask for (sessions and offers
-- when no flag is given), leaves every other file as it was, and lists the parts that it cleaned.
pub cmd_clean-removes :
    (host : Host) (dirs : String → Bool) (f : Flags) (fs : Files)
    → AreRoots host dirs fs
    → (g : Files) × (cmd_clean host dirs f (steady fs) ≡ (ok (wanted_names f every_part), steady g))
      × ((p : String) → g p ≡ (if is_wanted host f every_part p then none else fs p))
unfolding cmd_clean ◌>>=◌
cmd_clean-removes host dirs f fs roots =
    let sessions = wants f Part.session_part in
    let offers = wants f Part.offer_part in
    let manifests = wants f Part.manifest_part in
    let history = wants f Part.history_part in
    let names1 = plus sessions "sessions" [] in
    let names2 = plus offers "offers" names1 in
    let names3 = plus manifests "manifests" names2 in
    let (g1, r1, e1) = part-Leaves dirs (sessions_root host) fs sessions "sessions" [] roots.0 in
    let roots1 = AreRoots-without host dirs (sessions_root host) sessions fs g1 e1 roots in
    let (g2, r2, e2) = part-Leaves dirs (offers_root host) g1 offers "offers" names1 roots1.1 in
    let roots2 = AreRoots-without host dirs (offers_root host) offers g1 g2 e2 roots1 in
    let (g3, r3, e3) =
      part-Leaves dirs (manifests_root host) g2 manifests "manifests" names2 roots2.2 in
    let roots3 = AreRoots-without host dirs (manifests_root host) manifests g2 g3 e3 roots2 in
    let (g4, r4, e4) = part-Leaves dirs (history_path host) g3 history "history" names3 roots3.3 in
    (
      g4,
      rw
          (
            no_flags-no_flag f,
            r1,
            r2,
            r3,
            r4,
            names_in_order sessions offers manifests history "sessions" "offers" "manifests"
                "history",
          )
          refl,
      λ p.
          e4 p
          ∙ ap (λ x. if history && covers (history_path host) p then none else x)
              (e3 p
                ∙ ap (λ x. if manifests && covers (manifests_root host) p then none else x)
                    (e2 p
                      ∙ ap (λ x. if offers && covers (offers_root host) p then none else x) (e1 p)))
          ∙ layers (sessions && covers (sessions_root host) p)
              (offers && covers (offers_root host) p) (manifests && covers (manifests_root host) p)
              (history && covers (history_path host) p) (fs p),
    )
