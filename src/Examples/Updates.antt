-- ===== src/Examples/Updates.antt =====
-- A concrete update that is downloaded and waits for the worker's jobs, and its installation.
use transcoderd.Prelude.{◌≡◌, refl, true, false, none, some, List, [], ◌∷◌, String, str_eq}
use transcoderd.Prelude.Int.{pos}
use transcoderd.Update.Manifest.{Candidate, File, Manifest, reply, Keys, verify, required_names}
use transcoderd.Update.Manager.{State, absent, loaded, Machine, Host, install_call}
use transcoderd.Update.Step.{step}
use transcoderd.Update.Guarded.{Guarded}
use transcoderd.Update.Calls.{step-Guarded}
use transcoderd.Update.Blocks.{Stays}
use transcoderd.Update.Barrier.{step-Stays}

abbrev release : Candidate
release = record {
  content = "manifest";
  signature = "signed";
  url = "https://github.com/setup.exe";
}

abbrev digest : String
digest = "0123456789abcdef0123456789ABCDEF0123456789abcdef0123456789ABCDEF"

abbrev described : List String → List File
described [] = []
described (name ∷ names) = record { name = name; size = pos 1; sha256 = digest } ∷ described names

abbrev next_version : Manifest
next_version = record {
  schema = 1;
  version = "v2.0.0";
  architecture = "amd64";
  installer = record {
    name = "transcoderd-worker-v2.0.0-windows-amd64-setup.exe";
    size = pos 10;
    sha256 = digest;
  };
  files = described required_names;
}

abbrev keys : Keys
keys = record {
  is_key = true;
  is_signed = λ content signature. str_eq signature "signed";
  decode = λ content. some next_version;
  is_release = λ version. true;
}

abbrev waiting : State
waiting = record {
  pending = true;
  phase = "draining";
  target_version = "v2.0.0";
  installed_version = "v1.0.0";
  downloaded = pos 10;
  total = pos 10;
  next_retry = none;
  last_check = some 1000;
  message = "";
  attempts = 0;
  candidate = some release;
}

abbrev machine : Machine
machine = record { memory = waiting; saved = loaded waiting; transaction = absent }

abbrev windows : Host
windows = record {
  version = "v1.0.0";
  interval = 3600;
  fixture = false;
  keys = keys;
  parse_error = λ v. none;
  newer = λ v w. str_eq v "v2.0.0";
  same_version = str_eq;
  check = reply none;
  save_error = λ s. none;
  list_error = none;
  is_staged = true;
  stage = (pos 0, reply "setup.exe");
  staged_path = "setup.exe";
  drain = some (λ n. reply (0, 0));
  install = some (λ c manifest path. none);
  recover = none;
}

runs_the_installer :
    (step windows 1002 false machine).call ≡ some (install_call release next_version "setup.exe")
unfolding step verify
runs_the_installer = refl

step-Guarded_example : Guarded windows absent (step windows 1002 false machine)
step-Guarded_example = step-Guarded windows 1002 false machine

step-Stays_example : Stays windows absent (step windows 1002 false machine)
step-Stays_example = step-Stays windows 1002 false machine (record { memory = refl; saved = refl })
