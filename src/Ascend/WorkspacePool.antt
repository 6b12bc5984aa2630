-- ===== src/Ascend/WorkspacePool.antt =====
-- src/native/ascend/workspace_pool_.h: device buffers shared by the operators of a stream, one arena
-- for each stream and slot. The state is that of the pool, with the cache of the thread that calls it.
-- An arena is never erased while the pool lives, so its address is modelled by its key. The locks
-- are not modelled: a call is one step.
pub mod Lookup
pub mod Laws
use Prim.Native.String.{String}
use infini_ops.Prelude.{
  ℕ, ◌-◌, Bool, true, false, ◌&&◌, not, List, [], ◌∷◌, Option, none, some, ◌==◌, ltb, leb,
  if◌then◌else◌, take, Outcome, ok, ◌>>=◌, ◌>>◌, assert, access,
}
use infini_ops.Prelude.Equality.{same, string_eq}

-- `buf` is an address, and 0 the null pointer.
pub record WorkspaceArena : Type 0 where
  pub buf : ℕ
  pub capacity : ℕ

pub record SlotKey : Type 0 where
  pub stream : ℕ
  pub slot : String

abbrev pub same_slot : SlotKey → SlotKey → Bool
same_slot k l = (k.stream == l.stream) && same k.slot l.slot

-- `CacheEntry`; an entry of the initial cache has null pointers.
pub record CacheEntry : Type 0 where
  pub stream : ℕ
  pub slot : Option String
  pub arena : Option SlotKey

abbrev pub empty_entry : CacheEntry
empty_entry = record { stream = 0; slot = none; arena = none }

abbrev pub cache_size : ℕ
cache_size = 4

-- The Ascend runtime, whose state `W` is a parameter: what `aclrtMalloc` gives, the null result
-- standing for an error, `aclrtFree`, `aclrtSynchronizeStream`, and whether `aclrtGetDevice`
-- succeeds.
pub record AclRuntime (W : Type 0) : Type 0 where
  pub malloc : W → ℕ → Option ℕ × W
  pub free : W → ℕ → W
  pub synchronize : W → ℕ → W
  pub is_alive : W → Bool

-- `device` is the state of the runtime.
pub record WorkspacePool (W : Type 0) : Type 0 where
  pub arenas : List (SlotKey × WorkspaceArena)
  pub capturing : Bool
  pub cache : List CacheEntry
  pub device : W

-- `arenas_.find(key)`.
unfoldable pub find_arena : List (SlotKey × WorkspaceArena) → SlotKey → Option WorkspaceArena
find_arena [] key = none
find_arena ((k, arena) ∷ arenas) key = if same_slot k key then some arena else find_arena arenas key

-- The arena of the key is written; a new key gets an entry of its own.
unfoldable pub put_arena :
    List (SlotKey × WorkspaceArena) → SlotKey → WorkspaceArena → List (SlotKey × WorkspaceArena)
put_arena [] key arena = (key, arena) ∷ []
put_arena ((k, old) ∷ arenas) key arena =
    if same_slot k key then (k, arena) ∷ arenas else (k, old) ∷ put_arena arenas key arena

-- `needed <= e.arena->capacity`, for an arena of the pool.
abbrev pub has_room : ℕ → Option WorkspaceArena → Bool
has_room needed none = false
has_room needed (some arena) = leb needed arena.capacity

-- The test of the fast path on one entry: the entry's arena, where it serves.
unfoldable pub serves : List (SlotKey × WorkspaceArena) → SlotKey → ℕ → CacheEntry → Option SlotKey
unfolding find_arena
serves arenas key needed e = elim e.slot [
  | none ↦ none
  | some slot ↦ elim e.arena [
    | none ↦ none
    | some address ↦
        if (e.stream == key.stream)
          && same slot key.slot
          && has_room needed (find_arena arenas address)
        then some address
        else none
  ]
]

-- The loop of the fast path.
unfoldable pub find_cached :
    List (SlotKey × WorkspaceArena) → SlotKey → ℕ → List CacheEntry → Option SlotKey
unfolding serves
find_cached arenas key needed [] = none
find_cached arenas key needed (e ∷ cache) =
    let rest = find_cached arenas key needed cache in
    elim (serves arenas key needed e) [ some address ↦ some address | none ↦ rest ]

-- Insert into the cache: every entry moves up by one, and the last falls out.
unfoldable pub remember : CacheEntry → List CacheEntry → List CacheEntry
remember e cache = e ∷ take (cache_size - 1) cache

module _ {W : Type 0} (acl : AclRuntime W) where
  -- `aclrtSynchronizeStream` and `aclrtFree`, for an arena that has a buffer.
  unfoldable pub drop_buffer : W → ℕ → WorkspaceArena → W
  drop_buffer device stream arena =
      if ltb 0 arena.capacity then acl.free (acl.synchronize device stream) arena.buf else device

  -- The part of `Ensure` under the arena's lock.
  unfoldable pub grow : W → ℕ → ℕ → WorkspaceArena → Outcome (WorkspaceArena × W)
  unfolding drop_buffer
  grow device stream needed arena =
      if ltb arena.capacity needed
      then (let device = drop_buffer device stream arena in
          if ltb 0 needed
          then (let (result, device) = acl.malloc device needed in
              elim result [
                | none ↦ assert false >> ok (arena, device)
                | some buf ↦ ok (record { buf = buf; capacity = needed }, device)
              ])
          else ok (record arena { capacity = needed }, device))
      else ok (arena, device)

  -- `arenas_[key]`, with a new arena where there was none.
  abbrev pub arena_or_new : Option WorkspaceArena → WorkspaceArena
  arena_or_new none = record { buf = 0; capacity = 0 }
  arena_or_new (some arena) = arena

  -- The slow path.
  unfoldable pub ensure_slowly : WorkspacePool W → SlotKey → ℕ → Outcome (SlotKey × WorkspacePool W)
  unfolding find_arena put_arena grow remember
  ensure_slowly s key needed = do
    assert (not s.capturing)
    (arena, device) ← grow s.device key.stream needed (arena_or_new (find_arena s.arenas key))
    ok (
      key,
      record s {
        arenas = put_arena s.arenas key arena;
        cache =
            remember (record { stream = key.stream; slot = some key.slot; arena = some key })
              s.cache;
        device = device;
      },
    )

  -- `Ensure(stream, needed, slot)`: the address of the arena, and the state after it.
  unfoldable pub ensure : WorkspacePool W → SlotKey → ℕ → Outcome (SlotKey × WorkspacePool W)
  unfolding find_cached ensure_slowly
  ensure s key needed = elim (find_cached s.arenas key needed s.cache) [
    | some address ↦ ok (address, s)
    | none ↦ ensure_slowly s key needed
  ]

  -- `set_capture_mode`.
  unfoldable pub set_capture_mode : WorkspacePool W → Bool → WorkspacePool W
  set_capture_mode s capturing = record s { capturing = capturing }

  -- The destructor's loop over the arenas.
  unfoldable pub free_arenas : W → List (SlotKey × WorkspaceArena) → W
  free_arenas device [] = device
  free_arenas device ((key, arena) ∷ arenas) =
      let device =
        if ltb 0 arena.capacity
        then (if acl.is_alive device then acl.free device arena.buf else device)
        else device in
      free_arenas device arenas
