-- ===== src/Samples.antt =====
-- Values that the tests share.
use sshai.Base.{ℕ, true, none, some, [], ◌∷◌, ℤ, Time}
use sshai.Runtime.Status.{absent, provisioning, starting, ready, error}
use sshai.Runtime.Snapshot.{RuntimeReservation, RuntimeSnapshot, Runtime}
use sshai.Runtime.Operations.{RuntimeReadinessObservation}
use sshai.Environment.Snapshot.{
  creating, active, deleted, healthy, unknown, manual, EnvironmentReservation, EnvironmentSnapshot,
  Environment,
}
use sshai.Operation.Model.{
  environment_create, runtime_stop, queued, running, succeeded, OperationRequest, Operation,
}
use sshai.AutoStop.Policy.{
  when_fully_idle, AutoStopPolicy, AutoStopActivitySnapshot, AutoStopEvaluationRequest,
}
use sshai.Creation.Model.{EnvironmentCreation}

abbrev pub at : ℕ → Time
at n = record { instant = n; canonical = true }

abbrev pub reservation : RuntimeReservation
reservation = record {
  id = "rt-1";
  environment_id = "env-1";
  sequence = ℤ.pos 1;
  runtime_preset = "small";
  region = "eu-west-1";
  availability_zone = "eu-west-1a";
  image_version = "v1";
  created_at = at 10;
}

abbrev pub fresh : RuntimeSnapshot
fresh = record {
  id = "rt-1";
  environment_id = "env-1";
  sequence = ℤ.pos 1;
  status = absent;
  runtime_preset = "small";
  region = "eu-west-1";
  availability_zone = "eu-west-1a";
  image_version = "v1";
  provider_instance_ref = none;
  private_address = none;
  boot_id = none;
  started_at = none;
  stopped_at = none;
  retired_at = none;
  created_at = at 10;
  updated_at = at 10;
  version = ℤ.pos 1;
}

abbrev pub fresh_runtime : Runtime
fresh_runtime = record { snapshot = fresh }

abbrev pub allocated : Runtime
allocated = record {
  snapshot = record fresh {
    status = provisioning;
    provider_instance_ref = some "i-1";
    updated_at = at 20;
    version = ℤ.pos 2;
  };
}

abbrev pub booting : Runtime
booting = record {
  snapshot = record fresh {
    status = starting;
    provider_instance_ref = some "i-1";
    started_at = some (at 30);
    updated_at = at 30;
    version = ℤ.pos 3;
  };
}

abbrev pub readiness : RuntimeReadinessObservation
readiness = record {
  provider_instance_ref = "i-1";
  boot_id = "boot-1";
  private_address = "10.0.0.7";
  expected_version = ℤ.pos 3;
  observed_at = at 40;
}

abbrev pub serving : Runtime
serving = record {
  snapshot = record fresh {
    status = ready;
    provider_instance_ref = some "i-1";
    private_address = some "10.0.0.7";
    boot_id = some "boot-1";
    started_at = some (at 30);
    updated_at = at 40;
    version = ℤ.pos 4;
  };
}

abbrev pub unallocated : Runtime
unallocated = record {
  snapshot = record fresh { status = error; updated_at = at 20; version = ℤ.pos 2 };
}

-- The first Runtime, retired, and the one that replaces it.
abbrev pub retired_runtime : Runtime
retired_runtime = record {
  snapshot = record fresh {
    provider_instance_ref = some "i-1";
    retired_at = some (at 60);
    updated_at = at 60;
    version = ℤ.pos 6;
  };
}

abbrev pub replacement : Runtime
replacement = record {
  snapshot = record fresh {
    id = "rt-2";
    sequence = ℤ.pos 2;
    created_at = at 60;
    updated_at = at 60;
  };
}

abbrev pub environment_reservation : EnvironmentReservation
environment_reservation = record {
  id = "env-1";
  owner_user_id = "user-1";
  name = "Work";
  slug = "work";
  region = "eu-west-1";
  availability_zone = "eu-west-1a";
  runtime_preset = "small";
  pinned_profile_version_id = "pv-1";
  auto_stop_policy_id = "policy-1";
  created_at = at 5;
}

abbrev pub new_environment : EnvironmentSnapshot
new_environment = record {
  id = "env-1";
  owner_user_id = "user-1";
  name = "Work";
  slug = "work";
  lifecycle = creating;
  health = unknown;
  region = "eu-west-1";
  availability_zone = "eu-west-1a";
  runtime_preset = "small";
  pinned_profile_version_id = "pv-1";
  capsule_lock_id = none;
  upgrade_policy = manual;
  current_runtime_id = none;
  auto_stop_policy_id = "policy-1";
  created_at = at 5;
  updated_at = at 5;
  deleted_at = none;
  version = ℤ.pos 1;
}

abbrev pub empty_environment : Environment
empty_environment = record { snapshot = new_environment }

abbrev pub attached : Environment
attached = record {
  snapshot = record new_environment {
    current_runtime_id = some "rt-1";
    updated_at = at 10;
    version = ℤ.pos 2;
  };
}

abbrev pub completed : Environment
completed = record {
  snapshot = record new_environment {
    lifecycle = active;
    health = healthy;
    current_runtime_id = some "rt-1";
    updated_at = at 40;
    version = ℤ.pos 4;
  };
}

abbrev pub replaced : Environment
replaced = record {
  snapshot = record new_environment {
    lifecycle = active;
    health = healthy;
    current_runtime_id = some "rt-2";
    updated_at = at 60;
    version = ℤ.pos 5;
  };
}

abbrev pub detached : Environment
detached = record {
  snapshot = record new_environment {
    lifecycle = active;
    health = healthy;
    updated_at = at 60;
    version = ℤ.pos 5;
  };
}

abbrev pub gone : Environment
gone = record {
  snapshot = record new_environment {
    lifecycle = deleted;
    updated_at = at 80;
    deleted_at = some (at 80);
    version = ℤ.pos 7;
  };
}

abbrev pub create_request : OperationRequest
create_request = record {
  id = "op-1";
  environment_id = "env-1";
  type = environment_create;
  requested_by_user_id = "user-1";
  idempotency_key = "key-1";
  input = 123 ∷ 125 ∷ [];
  created_at = at 5;
}

abbrev pub queued_operation : Operation
queued_operation = record {
  snapshot = record {
    id = "op-1";
    environment_id = "env-1";
    type = environment_create;
    status = queued;
    requested_by_user_id = "user-1";
    idempotency_key = "key-1";
    restate_invocation_id = none;
    input = 123 ∷ 125 ∷ [];
    created_at = at 5;
    completed_at = none;
  };
}

abbrev pub recorded_operation : Operation
recorded_operation = record {
  snapshot = record queued_operation.snapshot { restate_invocation_id = some "inv-1" };
}

abbrev pub running_operation : Operation
running_operation = record { snapshot = record recorded_operation.snapshot { status = running } }

abbrev pub finished_operation : Operation
finished_operation = record {
  snapshot = record recorded_operation.snapshot { status = succeeded; completed_at = some (at 40) };
}

abbrev pub stop_operation : Operation
stop_operation = record {
  snapshot = record queued_operation.snapshot { id = "op-2"; type = runtime_stop };
}

abbrev pub stop_policy : AutoStopPolicy
stop_policy = record {
  snapshot = record {
    id = "policy-1";
    environment_id = "env-1";
    mode = when_fully_idle;
    grace_period_seconds = ℤ.pos 600;
  };
}

abbrev pub quiet : AutoStopActivitySnapshot
quiet = record {
  runtime_id = "rt-1";
  sequence = 7;
  observed_at = at 100;
  ssh_connections = ℤ.pos 0;
  ide_connections = ℤ.pos 0;
  codex_processes = ℤ.pos 0;
  claude_processes = ℤ.pos 0;
  protected_processes = ℤ.pos 0;
  selected_containers = ℤ.pos 0;
  unknown_user_processes = ℤ.pos 0;
}

abbrev pub stop_request : AutoStopEvaluationRequest
stop_request = record {
  runtime_id = "rt-1";
  previous_snapshot_sequence = 6;
  fresh_after = at 90;
  snapshot = some quiet;
  conflicts = [];
}

abbrev pub creation : EnvironmentCreation
creation = record {
  environment = empty_environment;
  policy = stop_policy;
  operation = queued_operation;
  project_seed_id = "seed-1";
  ssh_key_ids = "ssh-1" ∷ "ssh-2" ∷ [];
}

abbrev pub reserved_creation : EnvironmentCreation
reserved_creation = record {
  environment = attached;
  policy = stop_policy;
  operation = recorded_operation;
  project_seed_id = "seed-1";
  ssh_key_ids = "ssh-1" ∷ "ssh-2" ∷ [];
}
