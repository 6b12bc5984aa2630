-- ===== src/Examples/Backends.antt =====
-- The Ascend workspace pool and the CPU kernels at concrete inputs.
use infini_ops.Prelude.{
  get_elem?, ◌⊎◌, fail, Fault, ◌*◌, ◌≢◌, ℕ, ◌+◌, ◌<◌, ◌≡◌, refl, true, false, [], ◌∷◌, some, arith,
  ok, clash,
}
use infini_ops.DataType.{float16, float32}
use infini_ops.Device.{default_device}
use infini_ops.Tensor.{
  Tensor, strided, numel, is_contiguous, is_mergeable, merges, size, stride, ndim,
  get_effective_index,
}
use infini_ops.Tensor.Contiguous.{IsView}
use infini_ops.Cpu.Conversion.{run_cast}
use infini_ops.Cpu.Conversion.Laws.{run_cast-elements}
use infini_ops.Common.GenericUtils.Places.{place_of}
use infini_ops.Base.Conversion.{Cast, cast}
use infini_ops.Cpu.Cat.{copy_rows}
use infini_ops.Cpu.Cat.Tiles.{copy_rows-Tiles, Tiles}
use infini_ops.Ascend.WorkspacePool.{
  AclRuntime, WorkspacePool, CacheEntry, SlotKey, empty_entry, ensure, ensure_slowly, grow,
  drop_buffer, find_cached, serves, find_arena, put_arena, remember, set_capture_mode,
}
use infini_ops.Ascend.WorkspacePool.Lookup.{Room}
use infini_ops.Ascend.WorkspacePool.Laws.{
  AreBacked, ensure-Ensured, Ensured, ensure_warm, ensure_returns,
}

-- A device whose state is the next free address, and which never runs out.
abbrev bump : AclRuntime ℕ
bump = record {
  malloc = λ next bytes. (some next, next + bytes);
  free = λ next address. next;
  synchronize = λ next stream. next;
  is_alive = λ next. true;
}

abbrev empty_pool : WorkspacePool ℕ
empty_pool = record {
  arenas = [];
  capturing = false;
  cache = empty_entry ∷ empty_entry ∷ empty_entry ∷ empty_entry ∷ [];
  device = 4096;
}

abbrev workspace : SlotKey
workspace = record { stream = 3; slot = "workspace" }

abbrev warm_pool : WorkspacePool ℕ
warm_pool = record {
  arenas = (workspace, record { buf = 4096; capacity = 100 }) ∷ [];
  capturing = false;
  cache =
      record { stream = 3; slot = some "workspace"; arena = some workspace }
      ∷ empty_entry
      ∷ empty_entry
      ∷ empty_entry
      ∷ [];
  device = 4196;
}

empty_entry-IsEntry :
    (address : SlotKey)
    → empty_entry.arena ≡ some address
    → empty_entry.slot ≡ some address.slot × empty_entry.stream ≡ address.stream
empty_entry-IsEntry address h = absurd (clash h)

ensure_runs : ensure bump empty_pool workspace 100 ≡ ok (workspace, warm_pool)
unfolding ensure ensure_slowly grow drop_buffer find_cached serves find_arena put_arena remember
ensure_runs = refl

-- There is no arena yet.
empty_pool-AreBacked : AreBacked bump empty_pool
unfolding find_arena
empty_pool-AreBacked l arena found = absurd (clash found)

ensure-Ensured_example :
    Ensured bump empty_pool workspace 100 workspace warm_pool × AreBacked bump warm_pool
ensure-Ensured_example =
    ensure-Ensured bump empty_pool workspace 100 workspace warm_pool
      (empty_entry-IsEntry, (empty_entry-IsEntry, (empty_entry-IsEntry, (empty_entry-IsEntry, tt))))
      empty_pool-AreBacked ensure_runs

ensure_warm_example :
    ensure bump (set_capture_mode bump warm_pool true) workspace 60
    ≡ ok (workspace, set_capture_mode bump warm_pool true)
ensure_warm_example =
    ensure_warm bump empty_pool workspace 100 60 workspace warm_pool true
      (empty_entry-IsEntry, (empty_entry-IsEntry, (empty_entry-IsEntry, (empty_entry-IsEntry, tt))))
      ensure_runs (omega arith)

capture_runs :
    ensure bump (record warm_pool { capturing = true }) workspace 60
    ≡ ok (workspace, record warm_pool { capturing = true })
unfolding ensure find_cached serves find_arena
capture_runs = refl

ensure_returns_example :
    (empty_pool.capturing ≡ false
      → (s' : WorkspacePool ℕ) × (ensure bump empty_pool workspace 100 ≡ ok (workspace, s'))
        × Ensured bump empty_pool workspace 100 workspace s'
        × AreBacked bump s')
    × (empty_pool.capturing ≡ true
        → (ensure bump empty_pool workspace 100 ≡ ok (workspace, empty_pool)
            × Room empty_pool.arenas workspace 100)
          ⊎ ((ensure bump empty_pool workspace 100 ≡ fail Fault.aborted)
              × ((i : ℕ) (e : CacheEntry)
                  → get_elem? empty_pool.cache i ≡ some e
                  → e.stream ≡ 3
                  → e.slot ≡ some "workspace"
                  → e.arena ≡ some workspace
                  → Room empty_pool.arenas workspace 100
                  → ⊥)))
ensure_returns_example =
    ensure_returns bump empty_pool workspace 100
      (empty_entry-IsEntry, (empty_entry-IsEntry, (empty_entry-IsEntry, (empty_entry-IsEntry, tt))))
      empty_pool-AreBacked (λ device bytes. (device, refl))

copy_rows-Tiles_example : Tiles 0 (copy_rows 5 3 4 2 0 (2 ∷ 3 ∷ [])) 120
copy_rows-Tiles_example =
    copy_rows-Tiles 2 5 3 4 (2 ∷ 3 ∷ []) (omega arith) (omega arith) refl (omega arith)

abbrev block : Tensor
block = strided 64 (2 ∷ 3 ∷ []) float32 default_device (3 ∷ 1 ∷ [])

block-IsView : IsView block
block-IsView = record { same_length = refl; indexable = omega arith }

block_contiguous : is_contiguous block ≡ ok true
unfolding is_contiguous is_mergeable merges size stride ndim get_effective_index
block_contiguous = refl

-- Three numbers, two places apart in the input and one in the output.
abbrev every_second : Tensor
every_second = strided 0 (3 ∷ []) float16 default_device (2 ∷ [])

abbrev three : Tensor
three = strided 0 (3 ∷ []) float32 default_device (1 ∷ [])

every_second-IsView : IsView every_second
every_second-IsView = record { same_length = refl; indexable = omega arith }

three-IsView : IsView three
three-IsView = record { same_length = refl; indexable = omega arith }

abbrev every_second_cast : Cast
every_second_cast = record {
  dims = 1;
  output_size = 3;
  input_dtype = float16;
  out_dtype = float32;
  input_shape = 3 ∷ [];
  out_shape = 3 ∷ [];
  input_strides = 2 ∷ [];
  out_strides = 1 ∷ [];
  is_input_contiguous = false;
  is_out_contiguous = true;
}

every_second_made : cast every_second three ≡ ok every_second_cast
unfolding cast numel is_contiguous is_mergeable merges size stride ndim get_effective_index
every_second_made = refl

three_apart :
    (i j : ℕ) → i < 3 → j < 3 → place_of (3 ∷ []) (1 ∷ []) i ≡ place_of (3 ∷ []) (1 ∷ []) j → i ≡ j
three_apart i j hi hj e = omega arith

run_cast-elements_example :
    (result : ℕ → ℕ) × (run_cast (λ v. v + 1) every_second_cast (λ i. 10 * i) (λ i. 0) ≡ ok result)
    × ((i : ℕ)
        → i < 3
        → result (place_of (3 ∷ []) (1 ∷ []) i) ≡ 10 * place_of (3 ∷ []) (2 ∷ []) i + 1)
    × ((k : ℕ) → ((i : ℕ) → i < 3 → place_of (3 ∷ []) (1 ∷ []) i ≢ k) → result k ≡ 0)
run_cast-elements_example =
    run_cast-elements (λ v. v + 1) every_second three every_second_cast (λ i. 10 * i) (λ i. 0)
      every_second-IsView three-IsView refl (omega arith) every_second_made three_apart
