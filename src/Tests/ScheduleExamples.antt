-- ===== src/Tests/ScheduleExamples.antt =====
-- A scheduler that keeps its jobs in a list, and a project that is scheduled on it.
use borg_collective.Base.{
  false, ℕ, suc, ◌+◌, ◌≡◌, ◌≤◌, refl, Option, none, some, List, [], ◌∷◌, codes, eqb, if◌then◌else◌,
  arith,
}
use borg_collective.Worker.Static.{BackupConfig}
use borg_collective.Worker.Loop.{Signal, docker_update, config_update, done}
use borg_collective.Worker.Looping.{Table}
use borg_collective.Config.Load.{Config}
use borg_collective.Worker.Schedule.{Entry, Cron, Worker}
use borg_collective.Worker.Registry.{IsCron}
use borg_collective.Tests.WorkerExamples.{etc, full, shop}

abbrev Entries : Type 0
Entries = List (ℕ × Entry (Unit {0}))

abbrev entry_of : ℕ → Entries → Option (Entry (Unit {0}))
entry_of n [] = none
entry_of n ((id, job) ∷ entries) =
    let later = entry_of n entries in if eqb id n then some job else later

abbrev without : ℕ → Entries → Entries
without n [] = []
without n ((id, job) ∷ entries) =
    let rest = without n entries in if eqb id n then rest else (id, job) ∷ rest

-- The ids together with one for each entry, which is more than any id.
abbrev next_id : Entries → ℕ
next_id [] = 1
next_id ((id, job) ∷ entries) = suc id + next_id entries

entry_of-without :
    (id other : ℕ) (entries : Entries)
    → entry_of other (without id entries) ≡ (if eqb id other then none else entry_of other entries)
entry_of-without id other [] = ground arith
entry_of-without id other ((i, job) ∷ entries) = ground (arith, entry_of-without id other entries)

entry_of_large : (n : ℕ) (entries : Entries) → next_id entries ≤ n → entry_of n entries ≡ none
entry_of_large n [] h = refl
entry_of_large n ((i, job) ∷ entries) h = ground (arith, entry_of_large n entries)

instance abbrev listed : Cron
listed = record {
  Schedule = Unit {0};
  State = Entries;
  entry = entry_of;
  remove = without;
  schedule = λ schedule job entries. (next_id entries, (next_id entries, (tt, job)) ∷ entries);
}

next_id-nonzero : (entries : Entries) → eqb (next_id entries) 0 ≡ false
next_id-nonzero [] = refl
next_id-nonzero ((id, job) ∷ entries) = ground arith

listed-IsCron : IsCron ⦃C = listed⦄
listed-IsCron = record {
  entry-remove = entry_of-without;
  entry-schedule = λ schedule job other entries. refl;
  fresh = λ schedule job entries. entry_of_large (next_id entries) entries (omega arith);
  nonzero = λ schedule job entries. next_id-nonzero entries;
}

abbrev idle : Worker
idle = record { scheduler = []; compact_job_id = 0; static_job_ids = []; docker_job_ids = [] }

abbrev home : BackupConfig
home = record etc { name = codes "home"; paths = some (codes "/home" ∷ []); finally_command = [] }

abbrev backups_config : Config (Unit {0})
backups_config = record {
  temp_dir = none;
  repo = record {
    location = codes "/srv/repo";
    identity_file = none;
    compaction_schedule_value = some (codes "@weekly");
    compaction_schedule = some tt;
  };
  encryption = none;
  backups =
      (record { backup = etc; schedule_value = codes "@daily"; schedule = some tt })
      ∷ (record { backup = home; schedule_value = codes "@daily"; schedule = some tt })
      ∷ [];
}

abbrev received : List Signal
received = docker_update shop ∷ config_update backups_config ∷ done ∷ []

abbrev no_jobs : Table listed-IsCron ⦃H = full⦄
no_jobs = record { compaction = none; statics = []; project = λ name. none }
