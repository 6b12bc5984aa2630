-- ===== src/Ascend/WorkspacePool/Lookup.antt =====
-- Lookups in a pool: its arenas by key, and the entries of the cache that serve a call.
use infini_ops.Prelude.{
  ℕ, zero, suc, ◌≤◌, ◌≡◌, refl, ap, sym, subst, ◌∙◌, Bool, true, false, ◌&&◌, List, [], ◌∷◌, Option,
  get_elem?, none, some, ◌==◌, leb, if◌then◌else◌, take, some-inj, clash, arith, Bool-cases,
  Option-cases, inl, inr, ==_iff,
}
use infini_ops.Prelude.Equality.{same, string_eq}
use infini_ops.Ascend.WorkspacePool.{
  WorkspaceArena, SlotKey, same_slot, CacheEntry, find_arena, put_arena, has_room, serves,
  find_cached,
}

pub same_slot_refl : (k : SlotKey) → same_slot k k ≡ true
same_slot_refl k =
    rw ((==_iff k.stream k.stream).1 refl, (string_eq.beq_iff k.slot k.slot).1 refl) refl

pub same_slot_sound : (k l : SlotKey) → same_slot k l ≡ true → k ≡ l
same_slot_sound k l h =
    let streams : k.stream ≡ l.stream = ground arith in
    let slots : k.slot ≡ l.slot = (string_eq.beq_iff k.slot l.slot).0 (ground arith) in
    λ i. record { stream = streams i; slot = slots i }

pub find-put_self :
    (arenas : List (SlotKey × WorkspaceArena)) (key : SlotKey) (arena : WorkspaceArena)
    → find_arena (put_arena arenas key arena) key ≡ some arena
unfolding find_arena put_arena
find-put_self [] key arena = rw (same_slot_refl key)
find-put_self ((k, old) ∷ arenas) key arena = elim (Bool-cases (same_slot k key)) [
  | inl found ↦ rw (found, found)
  | inr other ↦ rw (other, other) (find-put_self arenas key arena)
]

pub find-put_other :
    (arenas : List (SlotKey × WorkspaceArena)) (key l : SlotKey) (arena : WorkspaceArena)
    → same_slot key l ≡ false
    → find_arena (put_arena arenas key arena) l ≡ find_arena arenas l
unfolding find_arena put_arena
find-put_other [] key l arena h = rw h
find-put_other ((k, old) ∷ arenas) key l arena h = elim (Bool-cases (same_slot k key)) [
  | inl found ↦
      let apart : same_slot k l ≡ false =
        subst (λ q. same_slot q l ≡ false) (sym (same_slot_sound k key found)) h in
      rw (found, apart)
  | inr other ↦ elim (Bool-cases (same_slot k l)) [
    | inl here ↦ rw (other, here)
    | inr away ↦ rw (other, away) (find-put_other arenas key l arena h)
  ]
]

-- An entry that points to an arena points to that of its own stream and slot.
abbrev pub IsEntry : CacheEntry → Type 0
IsEntry e =
    (address : SlotKey)
    → e.arena ≡ some address
    → e.slot ≡ some address.slot × e.stream ≡ address.stream

abbrev pub IsCache : List CacheEntry → Type 0
IsCache [] = Unit {0}
IsCache (e ∷ cache) = IsEntry e × IsCache cache

pub take-IsCache : (n : ℕ) (cache : List CacheEntry) → IsCache cache → IsCache (take n cache)
take-IsCache zero cache h = tt
take-IsCache (suc n) [] h = tt
take-IsCache (suc n) (e ∷ cache) h = (h.0, take-IsCache n cache h.1)

-- An arena of the slot with room for `needed` bytes.
pub record Room (arenas : List (SlotKey × WorkspaceArena)) (key : SlotKey) (needed : ℕ)
    : Type 0 where
  pub arena : WorkspaceArena
  pub found : find_arena arenas key ≡ some arena
  pub fits : needed ≤ arena.capacity

has_room-Room :
    (arenas : List (SlotKey × WorkspaceArena)) (key : SlotKey) (needed : ℕ)
    → has_room needed (find_arena arenas key) ≡ true
    → Room arenas key needed
has_room-Room arenas key needed h = elim (Option-cases (find_arena arenas key)) [
  | inl missing ↦ (let bad : false ≡ true = rw missing at h in cc)
  | inr (arena, there) ↦
      let fits : leb needed arena.capacity ≡ true = rw there at h in
      record { arena = arena; found = there; fits = ground arith }
]

-- An entry that serves has the stream, the slot and the arena, and that arena has room.
pub record Serves (arenas : List (SlotKey × WorkspaceArena)) (key : SlotKey) (needed : ℕ)
    (e : CacheEntry) (address : SlotKey) : Type 0 where
  pub slots : e.slot ≡ some key.slot
  pub points : e.arena ≡ some address
  pub streams : e.stream ≡ key.stream
  pub room : has_room needed (find_arena arenas address) ≡ true

serves_parts :
    (arenas : List (SlotKey × WorkspaceArena)) (key : SlotKey) (needed : ℕ) (e : CacheEntry)
    (address : SlotKey)
    → serves arenas key needed e ≡ some address
    → Serves arenas key needed e address
unfolding serves
serves_parts arenas key needed e address found = elim (Option-cases e.slot) [
  | inl missing ↦ absurd (clash (rw missing at found))
  | inr (slot, has_slot) ↦ elim (Option-cases e.arena) [
    | inl missing ↦ absurd (clash (rw (has_slot, missing) at found))
    | inr (a, has_arena) ↦
        let test : Bool =
          (e.stream == key.stream) && same slot key.slot && has_room needed (find_arena arenas a) in
        let got : (if test then some a else none) ≡ some address =
          rw (has_slot, has_arena) at found in
        elim (Bool-cases test) [
          | inr fails ↦ absurd (clash (rw fails at got))
          | inl holds ↦
              let is_a : a ≡ address = some-inj (rw holds at got) in
              let same_slots : slot ≡ key.slot =
                (string_eq.beq_iff slot key.slot).0 (ground arith) in
              let room : has_room needed (find_arena arenas a) ≡ true = ground arith in
              record {
                slots = has_slot ∙ ap some same_slots;
                points = has_arena ∙ ap some is_a;
                streams = ground arith;
                room = subst (λ q. has_room needed (find_arena arenas q) ≡ true) is_a room;
              }
        ]
  ]
]

pub serves_back :
    (arenas : List (SlotKey × WorkspaceArena)) (key : SlotKey) (needed : ℕ) (e : CacheEntry)
    (address : SlotKey)
    → Serves arenas key needed e address
    → serves arenas key needed e ≡ some address
unfolding serves
serves_back arenas key needed e address v =
    let room = v.room in
    let slots = v.slots in
    let points = v.points in
    let streams : (e.stream == key.stream) ≡ true = (==_iff _ _).1 v.streams in
    rw (slots, points, streams, (string_eq.beq_iff key.slot key.slot).1 refl, room) refl

Serves-Room :
    (arenas : List (SlotKey × WorkspaceArena)) (key : SlotKey) (needed : ℕ) (e : CacheEntry)
    (address : SlotKey)
    → IsEntry e
    → Serves arenas key needed e address
    → (address ≡ key) × Room arenas key needed
Serves-Room arenas key needed e address h v =
    let entry = h address v.points in
    let slots : address.slot ≡ key.slot = some-inj (sym entry.0 ∙ v.slots) in
    let streams : address.stream ≡ key.stream = sym entry.1 ∙ v.streams in
    let is_key : address ≡ key = λ i. record { stream = streams i; slot = slots i } in
    (
      is_key,
      has_room-Room arenas key needed
          (subst (λ q. has_room needed (find_arena arenas q) ≡ true) is_key v.room),
    )

pub find_cached-Room :
    (arenas : List (SlotKey × WorkspaceArena)) (key : SlotKey) (needed : ℕ)
    (cache : List CacheEntry) (address : SlotKey)
    → IsCache cache
    → find_cached arenas key needed cache ≡ some address
    → (address ≡ key) × Room arenas key needed
unfolding find_cached
find_cached-Room arenas key needed [] address h found = absurd (clash found)
find_cached-Room arenas key needed (e ∷ cache) address h found =
    elim (Option-cases (serves arenas key needed e)) [
      | inl miss ↦
          find_cached-Room arenas key needed cache address h.1 (rw (miss, find_cached) at found)
      | inr (a, hit) ↦
          Serves-Room arenas key needed e address h.0
            (serves_parts arenas key needed e address (hit ∙ (rw (hit, find_cached) at found)))
    ]

has_room_less :
    (needed less : ℕ) (arena : Option WorkspaceArena)
    → less ≤ needed
    → has_room needed arena ≡ true
    → has_room less arena ≡ true
has_room_less needed less none h room = room
has_room_less needed less (some arena) h room = ground arith

-- What serves a need serves a smaller one.
serves_less :
    (arenas : List (SlotKey × WorkspaceArena)) (key : SlotKey) (needed less : ℕ) (e : CacheEntry)
    (address : SlotKey)
    → less ≤ needed
    → serves arenas key needed e ≡ some address
    → serves arenas key less e ≡ some address
serves_less arenas key needed less e address h found =
    let v = serves_parts arenas key needed e address found in
    serves_back arenas key less e address (record {
      slots = v.slots;
      points = v.points;
      streams = v.streams;
      room = has_room_less needed less (find_arena arenas address) h v.room;
    })

pub find_cached_less :
    (arenas : List (SlotKey × WorkspaceArena)) (key : SlotKey) (needed less : ℕ)
    (cache : List CacheEntry) (address : SlotKey)
    → less ≤ needed
    → find_cached arenas key needed cache ≡ some address
    → (a : SlotKey) × (find_cached arenas key less cache ≡ some a)
unfolding find_cached
find_cached_less arenas key needed less [] address h found = absurd (clash found)
find_cached_less arenas key needed less (e ∷ cache) address h found =
    elim (Option-cases (serves arenas key less e)) [
      | inr (a, hit) ↦ (a, rw (hit, find_cached))
      | inl miss ↦ elim (Option-cases (serves arenas key needed e)) [
        | inr (a, hit) ↦ absurd (clash (sym miss ∙ serves_less arenas key needed less e a h hit))
        | inl none_here ↦
            let (a, later) =
              find_cached_less arenas key needed less cache address h
                (rw (none_here, find_cached) at found) in
            (a, rw (miss, find_cached) later)
      ]
    ]

leb-true : (a b : ℕ) → a ≤ b → leb a b ≡ true
leb-true a b h = ground arith

-- Where no entry serves a call, no entry of its stream and slot points to an arena with room.
pub find_cached-none :
    (arenas : List (SlotKey × WorkspaceArena)) (key : SlotKey) (needed : ℕ)
    (cache : List CacheEntry) (i : ℕ) (e : CacheEntry)
    → find_cached arenas key needed cache ≡ none
    → get_elem? cache i ≡ some e
    → e.stream ≡ key.stream
    → e.slot ≡ some key.slot
    → e.arena ≡ some key
    → Room arenas key needed
    → ⊥
unfolding find_cached
find_cached-none arenas key needed [] i e missed at streams slots points room = clash at
find_cached-none arenas key needed (d ∷ cache) zero e missed at streams slots points room =
    let found = room.found in
    let fits : has_room needed (find_arena arenas key) ≡ true =
      rw found (leb-true needed room.arena.capacity room.fits) in
    let hit : serves arenas key needed d ≡ some key =
      subst (λ q. serves arenas key needed q ≡ some key) (sym (some-inj at))
        (serves_back arenas key needed e key
          (record { slots = slots; points = points; streams = streams; room = fits })) in
    clash (sym (rw (hit, find_cached) at missed))
find_cached-none arenas key needed (d ∷ cache) (suc i) e missed at streams slots points room =
    elim (Option-cases (serves arenas key needed d)) [
      | inl miss ↦
          find_cached-none arenas key needed cache i e (rw (miss, find_cached) at missed) at streams
            slots points room
      | inr (a, hit) ↦ absurd (clash (sym (rw (hit, find_cached) at missed)))
    ]
