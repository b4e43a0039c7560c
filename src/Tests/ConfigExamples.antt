-- ===== src/Tests/ConfigExamples.antt =====
-- Loading and watching of a configuration at concrete inputs.
use borg_collective.Base.{
  ◌≡◌, ◌↔◌, refl, none, List, [], ◌∷◌, true, false, not, codes, Bytes, ◌==◌, if◌then◌else◌,
}
use borg_collective.Base.Exec.{ok, err}
use borg_collective.Config.Load.{
  Config, Loader, load_config, check_config, parse_compaction, check_encryption, parse_backups,
}
use borg_collective.Config.Loading.{IsLoaded, load_config_iff}
use borg_collective.Config.Watch.{
  Event, Watcher, updated, failed, Signal, event, idle, closed, Loop, run_watch, new_watch,
  path_dir,
}
use borg_collective.Config.Watching.{AreLoaded, only_last_fails, has_failure, run_watch_outputs}
use borg_collective.Config.Removal.{removed_and_ends, removed_and_written}

abbrev empty_config : Config (Unit {0})
empty_config = record {
  temp_dir = none;
  repo = record {
    location = codes "/srv/repo";
    identity_file = none;
    compaction_schedule_value = none;
    compaction_schedule = none;
  };
  encryption = none;
  backups = [];
}

instance abbrev loader : Loader
loader = record {
  State = Bytes;
  Schedule = Unit {0};
  open_file = λ path files. ok files;
  decode = λ text. if text == [] then err (codes "toml: empty") else ok empty_config;
  parse_standard = λ text. ok tt;
}

-- What is watched, the newest first.
instance abbrev watcher : Watcher
watcher = record {
  State = List Bytes;
  add = λ path s. (none, path ∷ s);
  remove = λ path s. (none, s);
}

abbrev path : Bytes
path = codes "/etc/drone.toml"

abbrev running : Loop
running = record {
  watching_parent_dir = false;
  is_removed = false;
  is_over = false;
  watcher = path ∷ [];
  sent = [];
}

abbrev removed : Event
removed = record { name = path; has_remove = true; has_write = false }

abbrev written : Event
written = record { name = path; has_remove = false; has_write = true }

abbrev content : Bytes
content = codes "[Repo]"

content_is_loaded : load_config path content ≡ ok empty_config
unfolding load_config check_config parse_compaction check_encryption parse_backups ◌==◌
content_is_loaded = refl

load_config_iff_example :
    (load_config path content ≡ ok empty_config) ↔ IsLoaded path content empty_config
load_config_iff_example = load_config_iff path content empty_config

abbrev received : List Signal
received = event removed [] ∷ event written content ∷ closed ∷ []

run_watch_outputs_example :
    AreLoaded path (run_watch path received running).sent
    × ((if (run_watch path received running).is_over
          then only_last_fails (run_watch path received running).sent
          else not (has_failure (run_watch path received running).sent))
        ≡ true)
unfolding new_watch
run_watch_outputs_example = run_watch_outputs path [] running received refl

removed_and_ends_example :
    ((problem : Bytes) × ((run_watch path (event removed [] ∷ idle ∷ []) running).sent
        ≡ failed problem ∷ [])
      × ((run_watch path (event removed [] ∷ idle ∷ []) running).is_over ≡ true))
    × ((problem : Bytes) × ((run_watch path (event removed [] ∷ event removed [] ∷ []) running).sent
          ≡ failed problem ∷ [])
        × ((run_watch path (event removed [] ∷ event removed [] ∷ []) running).is_over ≡ true))
removed_and_ends_example = removed_and_ends path removed removed [] [] running refl refl refl

removed_and_written_example :
    run_watch path (event removed [] ∷ event written content ∷ []) running ≡ record running {
      watcher = path ∷ path_dir path ∷ path ∷ [];
      sent = updated empty_config ∷ [];
    }
removed_and_written_example =
    removed_and_written path removed written [] content empty_config running
      (path_dir path ∷ path ∷ []) (path_dir path ∷ path ∷ []) (path ∷ path_dir path ∷ path ∷ [])
      refl refl refl refl refl refl refl refl refl refl content_is_loaded
