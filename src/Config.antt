-- ===== src/Config.antt =====
-- include/MAlloc/Error.hpp and include/MAlloc/Config.hpp. Of the error handler, which the program's
-- user writes, the configuration keeps whether one is set.
use Prim.Native.String.{String}
use m_alloc.Base.{Bool, true, false}

pub data Error : Type 0 where
  out_of_memory size_overflow invalid_alignment invalid_pointer double_free heap_corruption : Error

unfoldable pub to_string : Error → String
to_string out_of_memory = "out of memory"
to_string size_overflow = "size overflow"
to_string invalid_alignment = "invalid alignment"
to_string invalid_pointer = "invalid pointer"
to_string double_free = "double free"
to_string heap_corruption = "heap corruption"

-- std::expected<A, Error>
pub data Result {ℓ} (A : Type ℓ) : Type ℓ where
  ok : A → Result A
  err : Error → Result A

pub record Config : Type 0 where
  pub enable_guard_bytes : Bool
  pub enable_poisoning : Bool
  pub enable_leak_tracking : Bool
  pub enable_double_free_detection : Bool
  pub enable_thread_cache : Bool
  pub abort_on_error : Bool
  pub has_handler : Bool

abbrev pub release_config : Config
release_config = record {
  enable_guard_bytes = false;
  enable_poisoning = false;
  enable_leak_tracking = false;
  enable_double_free_detection = true;
  enable_thread_cache = true;
  abort_on_error = false;
  has_handler = false;
}

abbrev pub debug_config : Config
debug_config = record release_config {
  enable_guard_bytes = true;
  enable_poisoning = true;
  enable_leak_tracking = true;
  enable_double_free_detection = true;
  enable_thread_cache = false;
}
