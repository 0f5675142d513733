-- ===== src/Cli/Send/Approval.antt =====
-- A receiver that is not trusted and not approved gets nothing: `cmd_send` of crates/cli/src/main.rs.
use Prim.Native.String.{◌++◌ as ◌<>◌}
use send_rs.Prelude.{
  ℕ, ◌≡◌, ◌≢◌, refl, ap, ◌∙◌, Bool, false, String, Option, some, List, [], ◌∷◌, ◌++◌,
}
use send_rs.Exec.{IsReal, Result, ok, err, ◌>>=◌}
use send_rs.Exec.Rules.{
  After, returned, failed, bind-After, bind_context-After, context-After, if-After, After-mono,
  After-Holds,
}
use send_rs.Disk.{Files, Disk, exists, read_to_string}
use send_rs.Disk.Calls.{Keeps, read_to_string-Keeps}
use send_rs.Blake3.{Blake3}
use send_rs.Transfer.Manifest.{TransferManifest}
use send_rs.Trust.{load_trust_store, parsed, TrustLibrary, trust_path}
use send_rs.Cli.{Host, World, SendOffer, ReceiverClaim, on_files, println, prompt_yes, now, new_v4}
use send_rs.Cli.Paths.{state_path, history_path}
use send_rs.Cli.Session.{write_state, is_trusted}
use send_rs.Cli.Send.{send_record, reject, admit}
use send_rs.Cli.Session.Calls.{
  parsed-Keeps, append_history-Touches, on_files-After, write_json-Touches,
}

-- Two worlds that differ in no file but the state of the session and the history.
abbrev pub Elsewhere : Host → String → World → World → Type 0
Elsewhere host code w v =
    (p : String)
    → state_path host code ≢ p
    → history_path host ≢ p
    → v.disk.files p ≡ w.disk.files p

module _ {H : Type 0} (b3 : Blake3 H) (host : Host) (offer : SendOffer) (bytes_total : ℕ) where
  abbrev Same : World → World → Type 0
  Same = Elsewhere host offer.code

  write_state-Same :
      (id : Option String) (state text : String) (done total : ℕ) (w : World)
      → After
          (λ u v. Same w v)
          (λ e v. Same w v)
          (write_state host offer.code id state text done total w)
  unfolding write_state now ◌>>=◌
  write_state-Same id state text done total w =
      on_files-After _ _ (write_json-Touches host.states (state_path host offer.code) _ w.disk)
        (λ u d touched p ns nh. touched p ns) (λ x d touched p ns nh. touched.1 p ns)

  send_record-Same :
      (claim : ReceiverClaim) (started_at status : String) (done total : ℕ)
      (failure : Option String) (w : World)
      → After
          (λ u v. Same w v)
          (λ e v. Same w v)
          (send_record b3 host offer bytes_total claim started_at status done total failure w)
  unfolding send_record now new_v4 ◌>>=◌
  send_record-Same claim started_at status done total failure w =
      on_files-After _ _ (append_history-Touches host _ w.disk)
        (λ u d touched p ns nh. touched p nh) (λ x d touched p ns nh. touched.1 p nh)

  reject-Same :
      (claim : ReceiverClaim) (started_at : String) (w : World)
      → After
          (λ u v. Same w v)
          (λ e v. Same w v)
          (reject b3 host offer bytes_total claim started_at w)
  unfolding reject println
  reject-Same claim started_at w =
      bind-After
        (write_state host offer.code (some claim.claim_id) "failed" "sender rejected authentication"
          0 bytes_total)
        _ w
        (write_state-Same (some claim.claim_id) "failed" "sender rejected authentication" 0
          bytes_total w)
        (λ x v h. h)
        λ u v h.
          bind-After
            (send_record b3 host offer bytes_total claim started_at "failed" 0 bytes_total
              (some "sender rejected authentication"))
            _ v
            (send_record-Same claim started_at "failed" 0 bytes_total
              (some "sender rejected authentication") v)
            (λ x t k p ns nh. k p ns nh ∙ h p ns nh)
            λ u t k. returned _ _ (λ p ns nh. k p ns nh ∙ h p ns nh)

module _ (lib : TrustLibrary) (dir : String) where
  load_trust_store-Keeps : (d : Disk) → Keeps d (load_trust_store lib dir d)
  unfolding load_trust_store ◌>>=◌
  load_trust_store-Keeps d =
      if-After (exists d.files (trust_path lib dir)) _ _ d
        (λ t.
          bind_context-After "read trust store" (read_to_string (trust_path lib dir)) _ d
            (read_to_string-Keeps d (trust_path lib dir)) (λ x e h. h)
            λ body e h.
              context-After "parse trust store" (parsed (lib.from_str body)) e
                (After-mono (parsed-Keeps (lib.from_str body) e) (λ a f k. k ∙ h)
                  (λ x f k. (k.0, k.1 ∙ h)))
                (λ x f k. k))
        (λ f. returned _ _ refl)

is_trusted-Keeps : (host : Host) (id : String) (d : Disk) → Keeps d (is_trusted host id d)
unfolding is_trusted
is_trusted-Keeps host id d =
    bind-After (load_trust_store host.trust host.data_root) _ d
      (load_trust_store-Keeps host.trust host.data_root d) (λ x e h. h) λ store e h. returned _ _ h

-- The trust check, whose answer is known.
false_of_ok : {a : Bool} → Result.ok a ≡ ok false → a ≡ false
false_of_ok e = cc

asked-Keeps :
    (host : Host) (id : String) (d : Disk)
    → (is_trusted host id d).0 ≡ ok false
    → After
        (λ b e. (b ≡ false) × (e.files ≡ d.files))
        (λ x e. IsReal x × (e.files ≡ d.files))
        (is_trusted host id d)
asked-Keeps host id d unknown = known (is_trusted host id d) (is_trusted-Keeps host id d) unknown
  where
    known :
        (p : Result Bool × Disk)
        → Keeps d p
        → p.0 ≡ ok false
        → After (λ b e. (b ≡ false) × (e.files ≡ d.files)) (λ x e. IsReal x × (e.files ≡ d.files)) p
    known (ok b, e) h k = returned _ _ (false_of_ok k, After-Holds h)
    known (err x, e) h k = failed _ _ (After-Holds h)

module _ {H : Type 0} (b3 : Blake3 H) (host : Host) (offer : SendOffer) (bytes_total : ℕ)
    (claim : ReceiverClaim) (started_at : String) (manifest : TransferManifest) (w : World) where
  -- What becomes of a claim: the manifest as it was, and no file but two changed.
  abbrev pub NothingSent : Result TransferManifest × World → Type 0
  NothingSent =
      After (λ m v. (m ≡ manifest) × Elsewhere host offer.code w v)
        (λ e v. Elsewhere host offer.code w v)

  declined :
      (line : String) (rest : List (Option String))
      → w.answers ≡ some line ∷ rest
      → host.eq_ignore_ascii_case (host.trim line) "yes" ≡ false
      → (v : World) → v.answers ≡ w.answers
      → After (λ b u. (b ≡ false) × (u.disk ≡ v.disk)) (λ e u. ⊥) (prompt_yes host v)
  unfolding prompt_yes
  declined line rest typed refusal v same = rw (same, typed, refusal) (returned _ _ (refl, refl))

  -- A receiver that is not in the trust store, and that the user at the sender does not approve with
  -- `yes`: whatever calls fail, nothing is sent. The manifest stays as it was, and of all files at
  -- most the session's state and the history have changed.
  pub admit-NothingSent :
      (line : String) (rest : List (Option String))
      → (is_trusted host claim.receiver_id w.disk).0 ≡ ok false
      → w.answers ≡ some line ∷ rest
      → host.eq_ignore_ascii_case (host.trim line) "yes" ≡ false
      → NothingSent (admit b3 host offer bytes_total claim started_at manifest w)
  unfolding admit println ◌>>=◌
  admit-NothingSent line rest stranger typed refusal =
      bind-After (on_files (is_trusted host claim.receiver_id)) _ w
        (on_files-After
          {R = λ b v. (b ≡ false) × (v.disk.files ≡ w.disk.files) × (v.answers ≡ w.answers)}
          {F = λ e v. Elsewhere host offer.code w v} (is_trusted host claim.receiver_id) w
          (asked-Keeps host claim.receiver_id w.disk stranger) (λ b d h. (h.0, h.1, refl))
          (λ x d h p ns nh. ap (λ (f : Files). f p) h.1))
        (λ x v h. h)
        λ b v h. rw (h.0) (
          bind-After (prompt_yes host) _ (said v) (declined line rest typed refusal (said v) h.2)
            (λ x u k. absurd k)
            λ approved u k. rw (k.0) (
              bind-After (reject b3 host offer bytes_total claim started_at) _ u
                (reject-Same b3 host offer bytes_total claim started_at u)
                (λ x t l p ns nh.
                  l p ns nh ∙ ap (λ (d : Disk). d.files p) k.1 ∙ ap (λ (f : Files). f p) h.1)
                λ x t l. returned _ _ (
                  refl,
                  λ p ns nh.
                      l p ns nh ∙ ap (λ (d : Disk). d.files p) k.1 ∙ ap (λ (f : Files). f p) h.1,
                )))
    where
      said : World → World
      said v = record v {
        printed =
            (v.printed ++ "First-time connection detected." ∷ [])
            ++ ("Type 'yes' to approve this receiver: " <> claim.receiver_name) ∷ [];
      }
