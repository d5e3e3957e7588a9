-- ===== src/Examples/Starts.antt =====
-- Tests of cmd/t-cloud-csi-driver.
use t_cloud_public_csi_drive.Common.{◌-◌, ℕ, ◌≡◌, refl, true, none, some, List, []}
use t_cloud_public_csi_drive.Text.{trim_space}
use t_cloud_public_csi_drive.Path.{is_abs, clean}
use t_cloud_public_csi_drive.Eff.{Result, ok, err, ◌>>=◌}
use t_cloud_public_csi_drive.Errors.{errors_is, not_exist, only}
use t_cloud_public_csi_drive.Config.Metadata.{answered, fetch_loop}
use t_cloud_public_csi_drive.Log.Redact.{codes}
use t_cloud_public_csi_drive.Log.Attr.{sanitizing}
use t_cloud_public_csi_drive.Log.Output.{recorder}
use t_cloud_public_csi_drive.Driver.Csi.{Code, internal_code}
use t_cloud_public_csi_drive.Process.{System, run, exit_code}
use t_cloud_public_csi_drive.Process.Start.{Started, run-Started}
use t_cloud_public_csi_drive.Process.Sockets.{Careful, run-Careful}
use t_cloud_public_csi_drive.Process.Serve.{Schedule, Serves, Stops, Call, serve-Stops}
use t_cloud_public_csi_drive.Process.Rpc.{Texts, intercept}
use t_cloud_public_csi_drive.Process.Rpc.Told.{Logs, intercept-Logs}
use t_cloud_public_csi_drive.Examples.Processes.{parse_url, flags_of, getenv}

-- A node whose metadata service answers, with a stale socket at its endpoint.
abbrev sample_system : System
sample_system = record {
  parse_url = parse_url;
  getenv = getenv;
  version = "v1";
  flags = ok (flags_of "node");
  metadata = record {
    answer = λ _ _. answered 200 (some (record { server_uuid = "srv-1"; zone = "eu-de-02" }));
    context_err = λ _ _. none;
  };
  new_client = λ _ _. none;
  mkdir_err = λ _ _. none;
  stat = λ _ _. ok true;
  remove_err = λ _ _. none;
  listen_err = λ _ _. none;
  serve = λ _. none;
}

run-Started_example : Started (run sample_system []).0 (run sample_system []).1
run-Started_example = run-Started sample_system

run-Careful_example : Careful sample_system (run sample_system []).1
run-Careful_example = run-Careful sample_system

run_test : (run sample_system []).0 ≡ ok tt
unfolding run ◌>>=◌ trim_space is_abs clean fetch_loop
run_test = refl

exit_code_test : exit_code (err (only not_exist)) ≡ 1
unfolding exit_code errors_is
exit_code_test = refl

-- Told to stop after a second, with a call that takes twenty.
abbrev sample_schedule : Schedule
sample_schedule = record {
  server_ends = none;
  cancelled = some 1000;
  drained = some 20000;
  second_signal = none;
}

serve-Stops_example :
    ((r : Result _ (Unit {0})) × (calls : List Call) × (at : ℕ) × Serves sample_schedule r calls at)
    × ((r : Result _ (Unit {0})) (calls : List Call) (at : ℕ)
        → Serves sample_schedule r calls at
        → Stops sample_schedule 1000 r calls at)
serve-Stops_example = serve-Stops sample_schedule 1000 refl tt

abbrev sample_texts : Texts
sample_texts = record {
  code_name = λ _. codes "Internal";
  error_text = λ _. codes "failed with SK=abc";
}

abbrev failing : ℕ → Result Code (Unit {0}) × ℕ
failing s = (err internal_code, s)

intercept-Logs_example :
    let p =
      intercept sample_texts
        (sanitizing (recorder (λ _. true)))
        []
        (λ s. s)
        7
        (codes "/csi.Node")
        failing
        (5, []) in
    (p.0 ≡ (failing 5).0)
    × (p.1.0 ≡ (failing 5).1)
    × Logs sample_texts (λ _. true) [] (codes "/csi.Node") (5 - 5) (failing 5).0 [] p.1.1
intercept-Logs_example =
    intercept-Logs sample_texts (λ _. true) [] (λ s. s) 7 (codes "/csi.Node") failing 5 [] tt
