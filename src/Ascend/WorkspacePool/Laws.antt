-- ===== src/Ascend/WorkspacePool/Laws.antt =====
-- What a pool gives its callers: an arena of the slot that is large enough, and no work on the device
-- while a graph is captured.
use infini_ops.Prelude.{
  ℕ, get_elem?, ◌-◌, ◌<◌, ◌⊎◌, fail, Fault, ◌≤◌, ◌≡◌, refl, ap, sym, subst, ◌∙◌, Bool, true, false,
  not, none, some, ltb, ok, assert, bind_ok, ok-inj, some-inj, fail-ok, arith, Bool-cases,
  Option-cases, inl, inr,
}
use infini_ops.Ascend.WorkspacePool.{
  WorkspaceArena, SlotKey, same_slot, CacheEntry, cache_size, AclRuntime, WorkspacePool, find_arena,
  put_arena, has_room, serves, find_cached, remember, drop_buffer, grow, arena_or_new,
  ensure_slowly, ensure, set_capture_mode,
}
use infini_ops.Ascend.WorkspacePool.Lookup.{
  same_slot_sound, find-put_self, find-put_other, IsCache, IsEntry, take-IsCache, Room, serves_back,
  find_cached-Room, find_cached-none, find_cached_less,
}

module _ {W : Type 0} (acl : AclRuntime W) where
  grow-fits :
      (device : W) (stream needed : ℕ) (arena : WorkspaceArena) (arena' : WorkspaceArena)
      (device' : W)
      → grow acl device stream needed arena ≡ ok (arena', device')
      → needed ≤ arena'.capacity
  unfolding grow
  grow-fits device stream needed arena arena' device' e =
      elim (Bool-cases (ltb arena.capacity needed)) [
        | inr enough ↦
            let pair = ok-inj (rw (enough, grow) at e) in
            subst (λ (q : WorkspaceArena × W). needed ≤ q.0.capacity) pair (ground arith)
        | inl short ↦
            let positive : ltb 0 needed ≡ true = ground arith in
            let dropped : W = drop_buffer acl device stream arena in
            let got = rw (short, positive, grow) at e in
            elim (Option-cases (acl.malloc dropped needed).0) [
              | inl failed ↦ absurd (fail-ok (rw failed at got))
              | inr (buf, there) ↦
                  subst (λ (q : WorkspaceArena × W). needed ≤ q.0.capacity)
                    (ok-inj (rw there at got)) (omega arith)
            ]
      ]

  -- What a call leaves: the arena of the slot has room, the cache is well formed, the arenas of the
  -- other slots are as they were, and an entry of the cache serves what needs no more.
  pub record Ensured (s : WorkspacePool W) (key : SlotKey) (needed : ℕ) (address : SlotKey)
      (s' : WorkspacePool W) : Type 0 where
    pub of_slot : address ≡ key
    pub room : Room s'.arenas key needed
    pub cached : IsCache s'.cache
    pub others :
        (l : SlotKey) → same_slot key l ≡ false → find_arena s'.arenas l ≡ find_arena s.arenas l
    pub later :
        (less : ℕ)
        → less ≤ needed
        → (a : SlotKey) × (find_cached s'.arenas key less s'.cache ≡ some a)

  abbrev entry_of : SlotKey → CacheEntry
  entry_of key = record { stream = key.stream; slot = some key.slot; arena = some key }

  slow-IsEntry : (key : SlotKey) → IsEntry (entry_of key)
  slow-IsEntry key address e =
      (ap (λ (k : SlotKey). some k.slot) (some-inj e), ap (λ (k : SlotKey). k.stream) (some-inj e))

  -- The state after the slow path.
  abbrev stored : WorkspacePool W → SlotKey → WorkspaceArena → W → WorkspacePool W
  stored s key arena device = record s {
    arenas = put_arena s.arenas key arena;
    cache = remember (entry_of key) s.cache;
    device = device;
  }

  found_first :
      (s : WorkspacePool W) (key : SlotKey) (less : ℕ) (arena : WorkspaceArena)
      → less ≤ arena.capacity
      → find_cached (put_arena s.arenas key arena) key less (remember (entry_of key) s.cache)
        ≡ some key
  unfolding remember find_cached
  found_first s key less arena h =
      let there = find-put_self s.arenas key arena in
      let room : has_room less (find_arena (put_arena s.arenas key arena) key) ≡ true =
        rw there (ground arith) in
      let serves_it : serves (put_arena s.arenas key arena) key less (entry_of key) ≡ some key =
        serves_back (put_arena s.arenas key arena) key less (entry_of key) key
          (record { slots = refl; points = refl; streams = refl; room = room }) in
      rw (serves_it, find_cached)

  stored-Ensured :
      (s : WorkspacePool W) (key : SlotKey) (needed : ℕ) (arena : WorkspaceArena) (device : W)
      → IsCache s.cache
      → needed ≤ arena.capacity
      → Ensured s key needed key (stored s key arena device)
  unfolding remember
  stored-Ensured s key needed arena device h fits = record {
    of_slot = refl;
    room = record { arena = arena; found = find-put_self s.arenas key arena; fits = fits };
    cached = (slow-IsEntry key, take-IsCache (cache_size - 1) s.cache h);
    others = λ l apart. find-put_other s.arenas key l arena apart;
    later = λ less below. (key, found_first s key less arena (omega arith));
  }

  ensure_slowly-Ensured :
      (s : WorkspacePool W) (key : SlotKey) (needed : ℕ) (address : SlotKey) (s' : WorkspacePool W)
      → IsCache s.cache
      → ensure_slowly acl s key needed ≡ ok (address, s')
      → Ensured s key needed address s'
  unfolding ensure_slowly
  ensure_slowly-Ensured s key needed address s' h e =
      let (u, free_to_run, rest) = bind_ok (assert (not s.capturing)) _ e in
      let ((arena, device), grown, final) =
        bind_ok (grow acl s.device key.stream needed (arena_or_new acl (find_arena s.arenas key))) _
          rest in
      subst (λ (q : SlotKey × WorkspacePool W). Ensured s key needed q.0 q.1) (ok-inj final)
        (stored-Ensured s key needed arena device h (
          grow-fits s.device key.stream needed (arena_or_new acl (find_arena s.arenas key)) arena
            device grown))

  ensure_fast :
      (s : WorkspacePool W) (key : SlotKey) (needed : ℕ) (a : SlotKey)
      → find_cached s.arenas key needed s.cache ≡ some a
      → ensure acl s key needed ≡ ok (a, s)
  unfolding ensure
  ensure_fast s key needed a h = rw (h, ensure)

  ensure_slow :
      (s : WorkspacePool W) (key : SlotKey) (needed : ℕ)
      → find_cached s.arenas key needed s.cache ≡ none
      → ensure acl s key needed ≡ ensure_slowly acl s key needed
  unfolding ensure
  ensure_slow s key needed h = rw (h, ensure)

  ensure_kept :
      (s : WorkspacePool W) (key : SlotKey) (needed : ℕ) (address : SlotKey) (s' : WorkspacePool W)
      → IsCache s.cache
      → ensure acl s key needed ≡ ok (address, s')
      → Ensured s key needed address s'
  ensure_kept s key needed address s' h e =
      elim (Option-cases (find_cached s.arenas key needed s.cache)) [
        | inl miss ↦
            ensure_slowly-Ensured s key needed address s' h
              (sym (ensure_slow s key needed miss) ∙ e)
        | inr (a, hit) ↦
            let (is_key, room) = find_cached-Room s.arenas key needed s.cache a h hit in
            let pair = ok-inj (sym (ensure_fast s key needed a hit) ∙ e) in
            let same_state : Ensured s key needed a s = record {
              of_slot = is_key;
              room = room;
              cached = h;
              others = λ l apart. refl;
              later = λ less below. find_cached_less s.arenas key needed less s.cache a below hit;
            } in
            subst (λ (q : SlotKey × WorkspacePool W). Ensured s key needed q.0 q.1) pair same_state
      ]

  -- An arena with a capacity has a buffer that the runtime gave for so many bytes.
  abbrev pub IsBacked : WorkspaceArena → Type 0
  IsBacked arena =
      0 < arena.capacity → (device : W) × ((acl.malloc device arena.capacity).0 ≡ some arena.buf)

  -- All the arenas of a pool.
  abbrev pub AreBacked : WorkspacePool W → Type 0
  AreBacked s =
      (l : SlotKey) (arena : WorkspaceArena) → find_arena s.arenas l ≡ some arena → IsBacked arena

  grow-IsBacked :
      (device : W) (stream needed : ℕ) (arena : WorkspaceArena) (arena' : WorkspaceArena)
      (device' : W)
      → IsBacked arena
      → grow acl device stream needed arena ≡ ok (arena', device')
      → IsBacked arena'
  unfolding grow
  grow-IsBacked device stream needed arena arena' device' backed e =
      elim (Bool-cases (ltb arena.capacity needed)) [
        | inr enough ↦
            subst (λ (q : WorkspaceArena × W). IsBacked q.0) (ok-inj (rw (enough, grow) at e))
              backed
        | inl short ↦
            let positive : ltb 0 needed ≡ true = ground arith in
            let dropped : W = drop_buffer acl device stream arena in
            let got = rw (short, positive, grow) at e in
            elim (Option-cases (acl.malloc dropped needed).0) [
              | inl failed ↦ absurd (fail-ok (rw failed at got))
              | inr (buf, there) ↦
                  subst (λ (q : WorkspaceArena × W). IsBacked q.0) (ok-inj (rw there at got))
                    (λ some_bytes. (dropped, there))
            ]
      ]

  old-IsBacked :
      (s : WorkspacePool W) (key : SlotKey)
      → AreBacked s
      → IsBacked (arena_or_new acl (find_arena s.arenas key))
  old-IsBacked s key backed = elim (Option-cases (find_arena s.arenas key)) [
    | inl missing ↦ rw missing (λ none_there. absurd (omega arith))
    | inr (arena, there) ↦ rw there (backed key arena there)
  ]

  ensure_slowly-AreBacked :
      (s : WorkspacePool W) (key : SlotKey) (needed : ℕ) (address : SlotKey) (s' : WorkspacePool W)
      → AreBacked s
      → ensure_slowly acl s key needed ≡ ok (address, s')
      → AreBacked s'
  unfolding ensure_slowly
  ensure_slowly-AreBacked s key needed address s' backed e =
      let (u, free_to_run, rest) = bind_ok (assert (not s.capturing)) _ e in
      let old = arena_or_new acl (find_arena s.arenas key) in
      let ((arena, device), grown, final) =
        bind_ok (grow acl s.device key.stream needed old) _ rest in
      let new =
        grow-IsBacked s.device key.stream needed old arena device (old-IsBacked s key backed)
          grown in
      subst (λ (q : SlotKey × WorkspacePool W). AreBacked q.1) (ok-inj final)
        (λ l a found. elim (Bool-cases (same_slot key l)) [
          | inr apart ↦ backed l a (sym (find-put_other s.arenas key l arena apart) ∙ found)
          | inl here ↦
              let at : find_arena (put_arena s.arenas key arena) key ≡ some a =
                ap (find_arena (put_arena s.arenas key arena)) (same_slot_sound key l here)
                ∙ found in
              subst IsBacked (some-inj (sym (find-put_self s.arenas key arena) ∙ at)) new
        ])

  -- From a state whose cached entries point to the arenas of their slots, and whose arenas with a
  -- capacity have buffers that the runtime gave for so many bytes, a call of `Ensure` that returns gives
  -- the arena of its stream and slot with at least the capacity that is needed, keeps both properties
  -- and the arenas of all other slots, and leaves the cache so that a next call that needs no more
  -- finds an entry.
  pub ensure-Ensured :
      (s : WorkspacePool W) (key : SlotKey) (needed : ℕ) (address : SlotKey) (s' : WorkspacePool W)
      → IsCache s.cache
      → AreBacked s
      → ensure acl s key needed ≡ ok (address, s')
      → Ensured s key needed address s' × AreBacked s'
  ensure-Ensured s key needed address s' h backed e = (
    ensure_kept s key needed address s' h e,
    elim (Option-cases (find_cached s.arenas key needed s.cache)) [
      | inl miss ↦
          ensure_slowly-AreBacked s key needed address s' backed
            (sym (ensure_slow s key needed miss) ∙ e)
      | inr (a, hit) ↦
          subst (λ (q : SlotKey × WorkspacePool W). AreBacked q.1)
            (ok-inj (sym (ensure_fast s key needed a hit) ∙ e)) backed
    ],
  )

  -- After a call that returned, a call for the same stream and slot that needs no more returns the
  -- same arena and changes nothing, whether or not a graph is being captured by then.
  pub ensure_warm :
      (s : WorkspacePool W) (key : SlotKey) (needed less : ℕ) (address : SlotKey)
      (s' : WorkspacePool W) (capturing : Bool)
      → IsCache s.cache
      → ensure acl s key needed ≡ ok (address, s')
      → less ≤ needed
      → ensure acl (set_capture_mode acl s' capturing) key less
        ≡ ok (address, set_capture_mode acl s' capturing)
  unfolding set_capture_mode
  ensure_warm s key needed less address s' capturing h e below =
      let after = ensure_kept s key needed address s' h e in
      let (a, hit) = after.later less below in
      let (is_key, room) = find_cached-Room s'.arenas key less s'.cache a after.cached hit in
      ensure_fast (record s' { capturing = capturing }) key less a hit
      ∙ ap (λ (q : SlotKey). ok (q, record s' { capturing = capturing }))
          (is_key ∙ sym after.of_slot)

  -- While a graph is captured, a call of `Ensure` that returns changes nothing: neither the pool nor
  -- the device.
  pub ensure_captured :
      (s : WorkspacePool W) (key : SlotKey) (needed : ℕ) (address : SlotKey) (s' : WorkspacePool W)
      → s.capturing ≡ true
      → ensure acl s key needed ≡ ok (address, s')
      → s' ≡ s
  unfolding ensure_slowly
  ensure_captured s key needed address s' h e =
      elim (Option-cases (find_cached s.arenas key needed s.cache)) [
        | inr (a, hit) ↦ sym (
            ap (λ (q : SlotKey × WorkspacePool W). q.1)
              (ok-inj (sym (ensure_fast s key needed a hit) ∙ e)))
        | inl miss ↦
            absurd (fail-ok (rw (h, ensure_slowly) at (sym (ensure_slow s key needed miss) ∙ e)))
      ]

  grow_returns :
      (device : W) (stream needed : ℕ) (arena : WorkspaceArena)
      → ((device : W) (bytes : ℕ) → (buf : ℕ) × ((acl.malloc device bytes).0 ≡ some buf))
      → (arena' : WorkspaceArena) × (device' : W) × (grow acl device stream needed arena
          ≡ ok (arena', device'))
  unfolding grow
  grow_returns device stream needed arena gives = elim (Bool-cases (ltb arena.capacity needed)) [
    | inr enough ↦ (arena, device, rw (enough, grow))
    | inl short ↦
        let positive : ltb 0 needed ≡ true = ground arith in
        let dropped : W = drop_buffer acl device stream arena in
        let (buf, there) = gives dropped needed in
        (
          record { buf = buf; capacity = needed },
          (acl.malloc dropped needed).1,
          rw (short, positive, there, grow),
        )
  ]

  runs :
      (s : WorkspacePool W) (key : SlotKey) (needed : ℕ)
      → ((device : W) (bytes : ℕ) → (buf : ℕ) × ((acl.malloc device bytes).0 ≡ some buf))
      → s.capturing ≡ false
      → (address : SlotKey) × (s' : WorkspacePool W) × (ensure acl s key needed ≡ ok (address, s'))
  unfolding ensure_slowly
  runs s key needed gives h = elim (Option-cases (find_cached s.arenas key needed s.cache)) [
    | inr (a, hit) ↦ (a, s, ensure_fast s key needed a hit)
    | inl miss ↦
        let (arena, device, grown) =
          grow_returns s.device key.stream needed (arena_or_new acl (find_arena s.arenas key))
            gives in
        (
          key,
          stored s key arena device,
          ensure_slow s key needed miss ∙ rw (h, grown, ensure_slowly),
        )
  ]

  -- If the device has memory to give whenever it is asked, `Ensure` returns outside a capture, from a
  -- state as above: the arena of its stream and slot, in a state as above, with room for what is needed.
  -- During a capture it returns without a change if a cached entry of the stream and slot points to an
  -- arena with room, and aborts if none does.
  pub ensure_returns :
      (s : WorkspacePool W) (key : SlotKey) (needed : ℕ)
      → IsCache s.cache
      → AreBacked s
      → ((device : W) (bytes : ℕ) → (buf : ℕ) × ((acl.malloc device bytes).0 ≡ some buf))
      → (s.capturing ≡ false
          → (s' : WorkspacePool W) × (ensure acl s key needed ≡ ok (key, s'))
            × Ensured s key needed key s'
            × AreBacked s')
        × (s.capturing ≡ true
            → (ensure acl s key needed ≡ ok (key, s) × Room s.arenas key needed)
              ⊎ ((ensure acl s key needed ≡ fail Fault.aborted)
                  × ((i : ℕ) (e : CacheEntry)
                      → get_elem? s.cache i ≡ some e
                      → e.stream ≡ key.stream
                      → e.slot ≡ some key.slot
                      → e.arena ≡ some key
                      → Room s.arenas key needed
                      → ⊥)))
  unfolding ensure_slowly
  ensure_returns s key needed h backed gives = (
    λ free.
        let (address, s', e) = runs s key needed gives free in
        let (kept, still) = ensure-Ensured s key needed address s' h backed e in
        let at : address ≡ key = kept.of_slot in
        (s', e ∙ (λ i. ok (at i, s')), subst (λ a. Ensured s key needed a s') at kept, still),
    λ captured. elim (Option-cases (find_cached s.arenas key needed s.cache)) [
      | inr (a, hit) ↦
          let (is_key, room) = find_cached-Room s.arenas key needed s.cache a h hit in
          inl (ensure_fast s key needed a hit ∙ (λ i. ok (is_key i, s)), room)
      | inl miss ↦ inr (
        ensure_slow s key needed miss ∙ rw (captured, ensure_slowly) refl,
        λ i e. find_cached-none s.arenas key needed s.cache i e miss,
      )
    ],
  )
