-- ===== src/Transfer/Tests/Served.antt =====
-- A receiver is served, at concrete inputs.
use send_rs.Prelude.{
  sym, ℕ, refl, subst, false, get_elem?, ◌≡◌, ◌≢◌, String, none, some, [], ◌∷◌, ◌==◌,
}
use mathlib.Core.Option.{some-injective, none-ne-some}
use send_rs.Exec.{ok, ◌>>=◌}
use send_rs.Disk.Steady.{steady}
use send_rs.Paths.{join}
use send_rs.Transfer.Manifest.{ManifestEntry, TransferManifest}
use send_rs.Disk.{Disk, full, fail, store}
use send_rs.Disk.Laws.{store_ne}
use send_rs.Transfer.Execute.Watched.{Watch, watched_transfer}
use send_rs.Transfer.Execute.Watched.Aside.{Alike}
use send_rs.Transfer.Execute.Watched.Simulated.{IsAside, Beside}
use send_rs.Transfer.Execute.Watched.Whole.{watched_transfer-Alike}
use send_rs.Transfer.Execute.{execute_local_transfer, make_job, src_file_path, dest_file_path}
use send_rs.Transfer.Execute.Success.{IsReady, from, to}
use send_rs.Trust.{trust_default}
use send_rs.Cli.{Host, World, SendOffer, ReceiverClaim}
use send_rs.Cli.Paths.{
  normalize_code, manifests_root, sessions_root, session_root, manifest_path_by_code, state_path,
  history_path,
}
use send_rs.Cli.Session.{load_history}
use send_rs.Cli.Send.{transfer}
use send_rs.Cli.Send.Served.{serving, transfer-delivers}
use send_rs.Transfer.Tests.{toy, toy-IsStreaming, disk_files, manifest, json}
use send_rs.Transfer.Tests.Success.{json-Writes, differ, only_entry, ready}

abbrev host : Host
host = record {
  data_root = "/d";
  trim = λ s. s;
  to_uppercase = λ s. s;
  eq_ignore_ascii_case = λ s t. s == t;
  canonicalize = λ p. some p;
  offers = record { to_string_pretty = λ x. some []; from_str = λ b. none };
  claims = record { to_string_pretty = λ x. some []; from_str = λ b. none };
  states = record { to_string_pretty = λ x. some []; from_str = λ b. none };
  histories = record { to_string_pretty = λ x. some []; from_str = λ b. none };
  manifests = json;
  trust = record {
    to_string_pretty = λ s. some [];
    from_str = λ b. some trust_default;
    hash_code = λ c. c;
  };
  time = λ n. "t";
  uuid = λ n. "u";
}

abbrev offer : SendOffer
offer = record {
  code = "1";
  sender_id = "s";
  sender_name = "Sender";
  source_path = "/src";
  manifest_path = "/d/manifests/1.json";
  public_enabled = false;
  created_at = "t";
}

abbrev claim : ReceiverClaim
claim = record {
  claim_id = "c";
  receiver_id = "r";
  receiver_name = "Receiver";
  target_dir = "/out";
  created_at = "t";
}

abbrev world : World
world = record { disk = steady disk_files; others = []; answers = []; ticks = 0; printed = [] }

at_target :
    (p : String)
    → "/out/src/a.txt" ≢ p
    → (i : ℕ) (e : ManifestEntry) → get_elem? manifest.entries i ≡ some e
    → to toy
        (serving toy toy-IsStreaming host offer 5 claim disk_files manifest world)
        manifest
        disk_files
        e
      ≢ p
unfolding make_job dest_file_path join
at_target p apart i e here =
    subst
      (λ e.
        to toy (serving toy toy-IsStreaming host offer 5 claim disk_files manifest world) manifest
          disk_files e
        ≢ p)
      (only_entry toy "1,2,3,4,5," ("1,2," ∷ "3,4," ∷ "5," ∷ []) [] i e here) apart

at_source :
    (p : String)
    → "/src/a.txt" ≢ p
    → (i : ℕ) (e : ManifestEntry) → get_elem? manifest.entries i ≡ some e
    → from toy
        (serving toy toy-IsStreaming host offer 5 claim disk_files manifest world)
        manifest
        disk_files
        e
      ≢ p
unfolding make_job src_file_path join
at_source p apart i e here =
    subst
      (λ e.
        from toy (serving toy toy-IsStreaming host offer 5 claim disk_files manifest world) manifest
          disk_files e
        ≢ p)
      (only_entry toy "1,2,3,4,5," ("1,2," ∷ "3,4," ∷ "5," ∷ []) [] i e here) apart

below_source :
    (p : String)
    → "/src/a.txt" ≢ p
    → (i : ℕ) (e : ManifestEntry) → get_elem? manifest.entries i ≡ some e
    → join "/src" e.relative_path ≢ p
unfolding join
below_source p apart i e here =
    subst (λ e. join "/src" e.relative_path ≢ p)
      (only_entry toy "1,2,3,4,5," ("1,2," ∷ "3,4," ∷ "5," ∷ []) [] i e here) apart

serving-IsReady :
    IsReady toy
      (serving toy toy-IsStreaming host offer 5 claim disk_files manifest world)
      manifest
      disk_files
unfolding make_job src_file_path dest_file_path join manifest_path_by_code manifests_root
    normalize_code
serving-IsReady = record {
  formed = ready.formed;
  intact = ready.intact;
  apart = ready.apart;
  no_source = ready.no_source;
  no_root = ready.no_root;
  free_source = λ i e here.
      subst
        (λ e.
          some "/d/manifests/1.json"
          ≢ some (
              from toy (serving toy toy-IsStreaming host offer 5 claim disk_files manifest world)
                manifest disk_files e))
        (only_entry toy "1,2,3,4,5," ("1,2," ∷ "3,4," ∷ "5," ∷ []) [] i e here)
        (λ q. differ "/d/manifests/1.json" "/src/a.txt" refl (some-injective _ _ q));
  free_target = λ i e here.
      subst
        (λ e.
          some "/d/manifests/1.json"
          ≢ some (
              to toy (serving toy toy-IsStreaming host offer 5 claim disk_files manifest world)
                manifest disk_files e))
        (only_entry toy "1,2,3,4,5," ("1,2," ∷ "3,4," ∷ "5," ∷ []) [] i e here)
        (λ q. differ "/d/manifests/1.json" "/out/src/a.txt" refl (some-injective _ _ q));
  free_root = λ q. differ "/d/manifests/1.json" "/src" refl (some-injective _ _ q);
}

loads : load_history host (steady disk_files) ≡ (ok [], steady disk_files)
unfolding load_history history_path join ◌>>=◌
loads = refl

transfer-delivers_example :
    (changed : TransferManifest) × (v : World) × (transfer toy host offer 5 claim "t" manifest world
      ≡ (ok changed, v))
    × ((i : ℕ) (e : ManifestEntry)
        → get_elem? manifest.entries i ≡ some e
        → (v.disk.files (
              to toy
                (serving toy toy-IsStreaming host offer 5 claim disk_files manifest world)
                manifest
                disk_files
                e)
            ≡ disk_files (
                from toy
                  (serving toy toy-IsStreaming host offer 5 claim disk_files manifest world)
                  manifest
                  disk_files
                  e))
          × (v.disk.files (
                from toy
                  (serving toy toy-IsStreaming host offer 5 claim disk_files manifest world)
                  manifest
                  disk_files
                  e)
              ≡ disk_files (
                  from toy
                    (serving toy toy-IsStreaming host offer 5 claim disk_files manifest world)
                    manifest
                    disk_files
                    e)))
unfolding state_path history_path manifest_path_by_code manifests_root session_root sessions_root
    join normalize_code
transfer-delivers_example =
    transfer-delivers toy toy-IsStreaming host offer 5 claim disk_files manifest world "t" []
      json-Writes (λ s. ([], refl)) (λ h. ([], refl)) serving-IsReady loads
      (differ "/d/sessions/1/state.json" "/d/history.json" refl)
      (differ "/d/manifests/1.json" "/d/history.json" refl)
      (at_target (state_path host "1") (differ "/out/src/a.txt" "/d/sessions/1/state.json" refl))
      (at_target (history_path host) (differ "/out/src/a.txt" "/d/history.json" refl))
      (below_source (state_path host "1") (differ "/src/a.txt" "/d/sessions/1/state.json" refl))
      (at_source (history_path host) (differ "/src/a.txt" "/d/history.json" refl))
      (differ "/src" "/d/sessions/1/state.json" refl)
      (differ "/d/manifests/1.json" "/d/sessions/1/state.json" refl)

abbrev watch : Watch
watch n event d = record d { files = store "/state" [] d.files }

watch-IsAside : IsAside "/state" watch
watch-IsAside n event f = (store "/state" [] f, refl, λ p ne. sym (store_ne "/state" p [] f ne))

watched_transfer-Alike_example :
    Alike
      (Beside "/state" (make_job "/src" "/out" none 3 (steady disk_files) manifest) "src")
      (execute_local_transfer toy json "/src" "/out" none 3 (steady disk_files) manifest)
      (watched_transfer toy json watch "/src" "/out" none 3 (steady disk_files) manifest)
unfolding make_job dest_file_path join
watched_transfer-Alike_example =
    watched_transfer-Alike toy json watch "/src" "/out" none 3 disk_files manifest "/state"
      watch-IsAside (none-ne-some "/state") (differ "/state" "/src" refl)
      ((differ "/state" "/src/a.txt" refl, differ "/state" "/out/src/a.txt" refl), tt)

-- The second call on files fails.
abbrev failing : Disk
failing = record { files = disk_files; outcomes = full ∷ fail 0 ∷ [] }
