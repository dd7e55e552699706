-- ===== src/Error/Texts.antt =====
-- The texts that the library hands to `smp_set_error`, by their bytes.
use Prim.Native.Char.{code}
use Prim.Native.String.{String}
use smpcil.Base.{ℕ, List, [], ◌∷◌}

abbrev codes : String → List ℕ
codes String.[] = []
codes (String.◌∷◌ c s) = code c ∷ codes s

abbrev pub queue_node_failed : List ℕ
queue_node_failed = codes "malloc queue node err\n"

abbrev pub queue_quoted : List ℕ
queue_quoted = codes "other thread quoting this queue"

abbrev pub stack_filled : List ℕ
stack_filled = codes "stack filled"

abbrev pub array_overflow : List ℕ
array_overflow = codes "array Overflow"

abbrev pub array_empty_size : List ℕ
array_empty_size = codes "elem size can't be 0 or elem amt can't be 0"

abbrev pub pid_not_positive : List ℕ
pid_not_positive = codes "pid must > 0"

abbrev pub set_unavailable : List ℕ
set_unavailable = codes "source Unavailable, set is null"

abbrev pub list_init_failed : List ℕ
list_init_failed = codes "init list err, pool can't be void"

abbrev pub list_failed : List ℕ
list_failed = codes "Allocation list err int mem pool"

abbrev pub list_head_failed : List ℕ
list_head_failed = codes "Allocation list head elems err in mem pool"

abbrev pub no_source : List ℕ
no_source = codes "no source"

abbrev pub resource_unavailable : List ℕ
resource_unavailable = codes "Resource unavailable"

abbrev pub wrote_less : List ℕ
wrote_less = codes "Write less than the set number"

-- SMP_SIO_RDWD_EXIST
abbrev pub rdwd_exist : List ℕ
rdwd_exist = codes "r+"
