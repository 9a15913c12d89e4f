-- ===== src/Runtime/Status.antt =====
-- libs/domain/runtime.go: the statuses of a Runtime.
use sshai.Base.{String, Bool, true, false, same_text, List, [], ◌∷◌, ◌||◌}

-- `unknown` is any text that is none of the eight.
pub data RuntimeStatus : Type 0 where
  absent provisioning starting ready stopping stopped replacing error : RuntimeStatus
  unknown : String → RuntimeStatus

unfoldable pub same_status : RuntimeStatus → RuntimeStatus → Bool
same_status absent absent = true
same_status provisioning provisioning = true
same_status starting starting = true
same_status ready ready = true
same_status stopping stopping = true
same_status stopped stopped = true
same_status replacing replacing = true
same_status error error = true
same_status (unknown s) (unknown t) = same_text s t
same_status _ _ = false

abbrev pub runtime_statuses : List RuntimeStatus
runtime_statuses =
    absent ∷ provisioning ∷ starting ∷ ready ∷ stopping ∷ stopped ∷ replacing ∷ error ∷ []

one_of : RuntimeStatus → List RuntimeStatus → Bool
one_of s [] = false
one_of s (c ∷ rest) = same_status s c || one_of s rest

-- RuntimeStatus.valid
unfoldable pub is_valid_status : RuntimeStatus → Bool
unfolding one_of same_status
is_valid_status s = one_of s runtime_statuses

-- The text of a status, as `%q` prints it.
abbrev pub status_text : RuntimeStatus → String
status_text absent = "absent"
status_text provisioning = "provisioning"
status_text starting = "starting"
status_text ready = "ready"
status_text stopping = "stopping"
status_text stopped = "stopped"
status_text replacing = "replacing"
status_text error = "error"
status_text (unknown s) = s
