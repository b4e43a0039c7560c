-- ===== src/Worker/Plans.antt =====
-- Plans of `newContainerProjectBackupJob` of worker/container.go.
use borg_collective.Base.{
  Bool, true, false, ◌||◌, ◌&&◌, none, some, List, [], ◌∷◌, Bytes, codes, eqb, ◌≡◌, refl, arith,
  ==_iff,
}
use mathlib.Core.List.{Permᴰ}
use borg_collective.Base.Exec.{Outcome, ok, err, panic, fatal}
use borg_collective.Base.Assoc.{Assoc, values, lookup}
use borg_collective.Container.Model.{ContainerBackup, ContainerBackupProject, needs_backup}
use borg_collective.Worker.Host.{Host}
use borg_collective.Worker.Common.{less}
use borg_collective.Worker.Creation.{
  collect_plan, check_exec, check_dependencies, check_containers, new_project_job,
}

abbrev pub every {ℓ} : {A : Type ℓ} → (A → Bool) → List A → Bool
every p [] = true
every p (x ∷ xs) = p x && every p xs

-- What Go documents of `sort.Sort` for any `Less`: the elements are the same ones.
abbrev pub Permutes : ⦃H : Host⦄ → Type 0
Permutes ⦃H⦄ =
    (less : ContainerBackup → ContainerBackup → Bool) (ctnrs : List ContainerBackup)
    → Permᴰ (H.sort less ctnrs) ctnrs

abbrev pub has_mode : ContainerBackup → Bool
has_mode ctnr = eqb ctnr.mode 1 || eqb ctnr.mode 2 || eqb ctnr.mode 3

abbrev passes : Outcome Bytes Unit → Bool
passes (ok _) = true
passes (err _) = false
passes panic = false
passes fatal = false

abbrev pub is_checked : ⦃H : Host⦄ → ContainerBackup → Bool
is_checked ⦃H⦄ ctnr = passes (check_exec ctnr)

pub is_checked-ok :
    ⦃H : Host⦄ → (ctnr : ContainerBackup) → is_checked ctnr ≡ true → check_exec ctnr ≡ ok tt
is_checked-ok ctnr h = ground arith

pub every-perm {ℓ} :
    {A : Type ℓ} (p : A → Bool) {xs ys : List A}
    → Permᴰ xs ys
    → every p ys ≡ true
    → every p xs ≡ true
every-perm p Permᴰ.nil h = refl
every-perm p (Permᴰ.cons e d) h = ground (arith, every-perm p d, e)
every-perm p (Permᴰ.swap e e') h = ground (arith, e, e')
every-perm p (Permᴰ.trans d d') h = every-perm p d (every-perm p d' h)

pub every-collect_plan :
    (p : ContainerBackup → Bool) (ctnrs : List ContainerBackup)
    → every p ctnrs ≡ true
    → every p (collect_plan ctnrs) ≡ true
unfolding collect_plan
every-collect_plan p [] h = refl
every-collect_plan p (ctnr ∷ ctnrs) h = ground (arith, every-collect_plan p ctnrs)

collect_plan-needed :
    (ctnrs : List ContainerBackup) → every needs_backup (collect_plan ctnrs) ≡ true
unfolding collect_plan
collect_plan-needed [] = refl
collect_plan-needed (ctnr ∷ ctnrs) = ground (arith, collect_plan-needed ctnrs)

check_containers-checks :
    ⦃H : Host⦄
    → (containers : Assoc ContainerBackup) (ctnrs : List ContainerBackup)
    → check_containers containers ctnrs ≡ ok tt
    → every is_checked ctnrs ≡ true
unfolding check_containers
check_containers-checks containers [] h = refl
check_containers-checks containers (ctnr ∷ ctnrs) h =
    ground (arith, check_containers-checks containers ctnrs)

pub new_project_job-inv :
    ⦃H : Host⦄
    → {S : Type 0} (project : ContainerBackupProject S) (plan : List ContainerBackup)
    → new_project_job project ≡ ok plan
    → (every is_checked (values project.containers) ≡ true)
      × (plan ≡ H.sort less (collect_plan (values project.containers)))
unfolding new_project_job
new_project_job-inv project plan h =
    ground (arith, check_containers-checks project.containers (values project.containers))

abbrev pub is_found : Assoc ContainerBackup → Bytes → Bool
is_found containers dep = elim (lookup dep containers) [ none ↦ false | some _ ↦ true ]

check_dependencies-finds :
    (containers : Assoc ContainerBackup) (service_name : Bytes) (deps : List Bytes)
    → check_dependencies containers service_name deps ≡ ok tt
    → every (is_found containers) deps ≡ true
unfolding check_dependencies
check_dependencies-finds containers service_name [] h = refl
check_dependencies-finds containers service_name (dep ∷ deps) h =
    ground (arith, check_dependencies-finds containers service_name deps)

check_containers-finds :
    ⦃H : Host⦄
    → (containers : Assoc ContainerBackup) (ctnrs : List ContainerBackup)
    → check_containers containers ctnrs ≡ ok tt
    → every (λ ctnr. every (is_found containers) ctnr.dependencies) ctnrs ≡ true
unfolding check_containers
check_containers-finds containers [] h = refl
check_containers-finds containers (ctnr ∷ ctnrs) h = ground (
  arith,
  check_containers-finds containers ctnrs,
  check_dependencies-finds containers ctnr.service_name ctnr.dependencies,
)

-- If `newContainerProjectBackupJob` makes a job and `sort.Sort` permutes, then the project's engine is
-- Docker, every container of the plan needs a backup, and every dependency of a container of the
-- project is in the map of the project as it is then.
pub new_project_job-validates :
    ⦃H : Host⦄
    → {S : Type 0} (project : ContainerBackupProject S) (plan : List ContainerBackup) → Permutes
    → new_project_job project ≡ ok plan
    → (project.engine ≡ codes "docker")
      × (every needs_backup plan ≡ true)
      × (every
            (λ ctnr. every (is_found project.containers) ctnr.dependencies)
            (values project.containers)
          ≡ true)
unfolding new_project_job
new_project_job-validates project plan sorts h =
    let (checked, planned) = new_project_job-inv project plan h in
    (
      ground (arith, ==_iff project.engine (codes "docker")),
      rw planned (
          every-perm needs_backup (sorts less _) (collect_plan-needed (values project.containers))),
      ground (arith, check_containers-finds project.containers (values project.containers)),
    )
