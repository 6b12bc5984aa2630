-- ===== src/Examples/Descriptors.antt =====
-- Ascend descriptors and cleanups at concrete inputs.
use infini_ops.Prelude.{
  ◌*◌, ◌/◌, ℕ, suc, ◌+◌, ◌<◌, ◌≡◌, refl, Bool, true, false, ◌&&◌, ◌==◌, ltb, if◌then◌else◌, [], ◌∷◌,
  List, none, arith, Fault, ok, fail,
}
use infini_ops.DataType.{float16, int64, size_of}
use infini_ops.Device.{default_device}
use infini_ops.Tensor.{Tensor, strided, make_tensor, default_strides, fill_strides}
use infini_ops.Tensor.{size, stride, element_size, get_effective_index}
use infini_ops.Tensor.Laws.{dot}
use infini_ops.Base.ReshapeAndCache.{ReshapeAndCache}
use infini_ops.Ascend.CacheViews.{CacheViews, cache_views}
use infini_ops.Ascend.CacheViews.Laws.{cache_views-slot}
use infini_ops.Ascend.RotaryTables.{upload_cos_sin}
use infini_ops.Ascend.RotaryTables.Laws.{upload_cos_sin-halves}
use infini_ops.Ascend.AclDtype.{acl_int64, acl_float16, to_acl_dtype}
use infini_ops.Ascend.AclTensor.{
  TensorMeta, storage_elems, meta_of, meta_of_shape, contiguous, transposed,
}
use infini_ops.Ascend.AclTensor.Storage.{IsIndex, storage_elems_exact}
use infini_ops.Ascend.AclTensor.Cache.{
  AclTensors, Objects, CacheCall, construct_at, get_from, move_assign_to, destruct_of, run,
}
use infini_ops.Ascend.AclTensor.Cache.Ownership.{IsDocumented}
use infini_ops.Ascend.AclTensor.Cache.Safety.{run-IsOwned, IsOwned}
use infini_ops.Ascend.GraphCleanup.{Cleanups, CleanupCall, open_at, close_at, clean, perform_all}
use infini_ops.Ascend.GraphCleanup.Stack.{Stack, Implements}
use infini_ops.Ascend.GraphCleanup.Refinement.{perform_all-Implements}

-- Two rows of three elements, four apart.
storage_elems_exact_example :
    (n : ℕ) × (storage_elems (2 ∷ 3 ∷ []) (4 ∷ 1 ∷ []) ≡ ok n)
    × ((indices : List ℕ) → IsIndex indices (2 ∷ 3 ∷ []) → dot indices (4 ∷ 1 ∷ []) < n)
    × ((indices : List ℕ) × (IsIndex indices (2 ∷ 3 ∷ []) × (dot indices (4 ∷ 1 ∷ []) + 1 ≡ n)))
storage_elems_exact_example =
    storage_elems_exact (2 ∷ 3 ∷ []) (4 ∷ 1 ∷ []) refl (omega arith) (omega arith) (omega arith)

abbrev matrix : Tensor
matrix = strided 1000 (2 ∷ 3 ∷ []) float16 default_device (3 ∷ 1 ∷ [])

abbrev flipped : Tensor
flipped = strided 1000 (3 ∷ 2 ∷ []) float16 default_device (1 ∷ 3 ∷ [])

matrix_made : make_tensor 1000 (2 ∷ 3 ∷ []) float16 default_device ≡ ok matrix
unfolding make_tensor default_strides fill_strides
matrix_made = refl

-- A runtime that counts its descriptors, knows which are there, and fails on all others.
record Table : Type 0 where
  next : ℕ
  alive : ℕ → Bool

abbrev is_live : Table → ℕ → Bool
is_live w d = ltb d w.next && w.alive d

abbrev table : AclTensors Table
table = record {
  create_tensor = λ w meta address.
      (w.next, record { next = suc w.next; alive = λ d. if d == w.next then true else w.alive d });
  set_raw_tensor_addr = λ w t address. if is_live w t then ok w else fail Fault.aborted;
  destroy_tensor = λ w t.
      if is_live w t
      then ok (record w { alive = λ d. if d == t then false else w.alive d })
      else fail Fault.aborted;
  is_runtime_alive = λ w. true;
}

table-IsDocumented : IsDocumented table is_live
table-IsDocumented = record {
  creates_new = λ w m a n. ground arith;
  creates = λ w m a n. ground arith;
  create_keeps = λ w m a d h. ground arith;
  sets = λ w t a h. (w, rw h refl, λ d l. l);
  destroys = λ w t h. (
    record w { alive = λ d. if d == t then false else w.alive d },
    rw h refl,
    λ d n l. ground arith,
  );
}

abbrev row : TensorMeta
row = record { shape = 4 ∷ []; strides = 1 ∷ []; storage_shape = 4 ∷ []; dtype = acl_float16 }

abbrev nothing_held : Objects Table
nothing_held = record {
  caches = λ i. record { kept = row; tensor = 0 };
  runtime = record { next = 1; alive = λ d. false };
}

abbrev calls : List CacheCall
calls = construct_at 1 row 64 ∷ get_from 1 128 ∷ move_assign_to 2 1 ∷ destruct_of 2 ∷ []

run-IsOwned_example :
    (s' : Objects Table) × (run table nothing_held calls ≡ ok s')
    × IsOwned table is_live table-IsDocumented s'
run-IsOwned_example =
    run-IsOwned table is_live table-IsDocumented nothing_held calls
      (refl, λ s1 e1. (tt, λ s2 e2. (tt, λ s3 e3. (tt, λ s4 e4. tt))))
      (record { there = λ i n. absurd (n refl); apart = λ i j n e. absurd (n refl) })

abbrev no_scope : Cleanups ℕ
no_scope = record {
  active = none;
  scopes = λ i. record { previous = none; callbacks = [] };
  ran = [];
}

abbrev no_stack : Stack ℕ
no_stack = record { open_scopes = []; ran = [] }

abbrev nested : List (CleanupCall ℕ)
nested = open_at 1 ∷ clean 7 ∷ open_at 2 ∷ clean 8 ∷ close_at 2 ∷ clean 9 ∷ close_at 1 ∷ []

perform_all-Implements_example :
    Implements (perform_all no_scope nested) (record { open_scopes = []; ran = 8 ∷ 7 ∷ 9 ∷ [] })
perform_all-Implements_example =
    perform_all-Implements no_scope no_stack nested
      (tt, (tt, ((λ e. omega arith, tt), (tt, (refl, (tt, (refl, tt)))))))
      (record { chain = tt; apart = tt; ran_same = refl })

abbrev heads_of_four : ReshapeAndCache
heads_of_four = record {
  num_tokens = 3;
  num_kv_heads = 2;
  head_size = 4;
  block_size = 8;
  key_shape = 3 ∷ 2 ∷ 4 ∷ [];
  value_shape = 3 ∷ 2 ∷ 4 ∷ [];
  kv_cache_shape = 2 ∷ 5 ∷ 8 ∷ 2 ∷ 4 ∷ [];
  slot_mapping_shape = 3 ∷ [];
  key_strides = 8 ∷ 4 ∷ 1 ∷ [];
  value_strides = 8 ∷ 4 ∷ 1 ∷ [];
  kv_cache_strides = 320 ∷ 64 ∷ 8 ∷ 4 ∷ 1 ∷ [];
  slot_mapping_strides = 1 ∷ [];
  kv_cache_out_strides = 320 ∷ 64 ∷ 8 ∷ 4 ∷ 1 ∷ [];
}

abbrev tokens : Tensor
tokens = strided 64 (3 ∷ 2 ∷ 4 ∷ []) float16 default_device (8 ∷ 4 ∷ 1 ∷ [])

abbrev paged : Tensor
paged = strided 4096 (2 ∷ 5 ∷ 8 ∷ 2 ∷ 4 ∷ []) float16 default_device (320 ∷ 64 ∷ 8 ∷ 4 ∷ 1 ∷ [])

abbrev slots : Tensor
slots = strided 64 (3 ∷ []) int64 default_device (1 ∷ [])

abbrev paged_views : CacheViews
paged_views = record {
  view = record {
    shape = 40 ∷ 2 ∷ 4 ∷ [];
    strides = 8 ∷ 4 ∷ 1 ∷ [];
    storage_shape = 320 ∷ [];
    dtype = acl_float16;
  };
  v_offset_bytes = 640;
  key_view = record {
    shape = 3 ∷ 2 ∷ 4 ∷ [];
    strides = 8 ∷ 4 ∷ 1 ∷ [];
    storage_shape = 24 ∷ [];
    dtype = acl_float16;
  };
  value_view = record {
    shape = 3 ∷ 2 ∷ 4 ∷ [];
    strides = 8 ∷ 4 ∷ 1 ∷ [];
    storage_shape = 24 ∷ [];
    dtype = acl_float16;
  };
  slot_view = record {
    shape = 3 ∷ [];
    strides = 1 ∷ [];
    storage_shape = 3 ∷ [];
    dtype = acl_int64;
  };
}

views_made : cache_views heads_of_four tokens tokens paged slots paged ≡ ok paged_views
unfolding cache_views meta_of meta_of_shape contiguous storage_elems transposed to_acl_dtype size
    stride get_effective_index element_size size_of
views_made = refl

cache_views-slot_example :
    dot (1 ∷ 2 ∷ 3 ∷ 1 ∷ 2 ∷ []) (320 ∷ 64 ∷ 8 ∷ 4 ∷ 1 ∷ []) * 2
    ≡ 1 * 640 + dot ((2 * 8 + 3) ∷ 1 ∷ 2 ∷ []) (8 ∷ 4 ∷ 1 ∷ []) * 2
cache_views-slot_example =
    cache_views-slot heads_of_four tokens tokens paged slots paged paged_views 5 8 2 (omega arith)
      (omega arith) (omega arith) refl (unfold element_size size_of in refl) views_made 1 2 3 1 2

abbrev doubled : (ℕ → ℕ) × (ℕ → ℕ)
doubled = upload_cos_sin 4 (λ x. x + 10) 0 3

upload_cos_sin-halves_example :
    (doubled.0 (1 * 4 + 1) ≡ 15)
    × (doubled.0 (1 * 4 + (4 / 2 + 1)) ≡ 15)
    × (doubled.1 (1 * 4 + 1) ≡ 17)
    × (doubled.1 (1 * 4 + (4 / 2 + 1)) ≡ 17)
    × ((q : ℕ) → q * 2 < 3 → doubled.1 (q * 2 * 4 + 1) ≡ q * (4 * 2) + (4 / 2 + 1) + 10)
upload_cos_sin-halves_example =
    upload_cos_sin-halves 4 (λ x. x + 10) 0 3 1 1 (omega arith) (omega arith) (omega arith)
