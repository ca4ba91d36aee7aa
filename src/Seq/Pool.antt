-- ===== src/Seq/Pool.antt =====
-- Pool of internal/seq/allocator.go: one allocator for each (biz, key), made on first use.
-- The map's key is the text "biz:key", which determines the pair; here it is the pair.
use yim.Base.{
  nat_eq, pair_eq, list_eq, pair_beq_iff, ℕ, zero, suc, ◌+◌, ◌-◌, ◌∷◌, ◌≡◌, ◌≢◌, ◌∙◌, refl, Option,
  none, some, [], arith, Bool, true, false, if◌then◌else◌, Option-cases, inl, inr,
}
use yim.Seq.Loads.{load_segment_local}
use yim.Base.Map.{Map, lookup, insert, lookup-insert, lookup-insert_self}
use yim.Seq.{
  Key, Table, Try, Allocator, max_id, new_allocator, peek, Answer, range, load_failed, next,
  next_loop, taken, refill_async, swap_sync,
}

-- `meta` is the database that all the allocators of the pool share.
pub record Pool : Type 0 where
  pub meta : Table
  pub step : ℕ
  pub allocators : Map Key Allocator

pub new_pool : Table → ℕ → Pool
new_pool meta step = record { meta = meta; step = step; allocators = [] }

-- `rival` is the allocator that another goroutine has put in the map while this one was loading.
unfoldable pub for_key : (ℕ → Try) → Option Allocator → Key → Pool → Pool × Option Allocator
for_key tries rival k p = elim (lookup k p.allocators) [
  | some a ↦ (p, some a)
  | none ↦
      let (t, made) = new_allocator tries k p.step p.meta in
      elim made [
        | none ↦ (record p { meta = t }, none)
        | some a ↦ elim rival [
          | some b ↦ (record p { meta = t; allocators = insert k b p.allocators }, some b)
          | none ↦ (record p { meta = t; allocators = insert k a p.allocators }, some a)
        ]
      ]
]

-- The read of max_id fails where `fails`; a key that never had a row gives 0.
unfoldable pub current : Bool → Key → Pool → Option ℕ
current fails k p =
    let row = if fails then none else some (max_id k p.meta) in
    elim (lookup k p.allocators) [
      | none ↦ row
      | some a ↦ elim (peek a) [ none ↦ row | some v ↦ some v ]
    ]

-- The allocator of a key works on the shared table, and is written back.
unfoldable pub with_allocator : Key → Allocator → Pool → Pool
with_allocator k a p = record p { meta = a.meta; allocators = insert k a p.allocators }

-- AllocId, AllocConvSeq and BumpSyncSeq of the handler: For, then Next. `none` is an error.
unfoldable pub alloc : (ℕ → Try) → (ℕ → ℕ → Try) → Option Allocator → Key → ℕ → Pool → Pool × Answer
alloc loads tries rival k n p =
    let (q, found) = for_key loads rival k p in
    elim found [
      | none ↦ (q, load_failed)
      | some a ↦
          let (b, answer) = next tries n (record a { meta = q.meta }) in
          (with_allocator k b q, answer)
    ]

-- "conv" and "sync".
abbrev pub conv_key : ℕ → Key
conv_key conv_id = (b'c' ∷ b'o' ∷ b'n' ∷ b'v' ∷ [], conv_id)

abbrev pub sync_key : ℕ → Key
sync_key uid = (b's' ∷ b'y' ∷ b'n' ∷ b'c' ∷ [], uid)

pub alloc_conv_seq : (ℕ → Try) → (ℕ → ℕ → Try) → Option Allocator → ℕ → ℕ → Pool → Pool × Answer
alloc_conv_seq loads tries rival conv_id count p =
    alloc loads tries rival (conv_key conv_id) count p

pub bump_sync_seq : (ℕ → Try) → (ℕ → ℕ → Try) → Option Allocator → ℕ → Pool → Pool × Answer
bump_sync_seq loads tries rival uid p = alloc loads tries rival (sync_key uid) 1 p

pub get_sync_seq : Bool → ℕ → Pool → Option ℕ
get_sync_seq fails uid p = current fails (sync_key uid) p

-- `true` where no error is returned.
pub init_conv : (ℕ → Try) → Option Allocator → ℕ → Pool → Pool × Bool
init_conv loads rival conv_id p =
    let (q, found) = for_key loads rival (conv_key conv_id) p in
    (q, elim found [ none ↦ false | some a ↦ true ])

next_loop-last :
    (fuel : ℕ) (tries : ℕ → ℕ → Try) (n start : ℕ) (a : Allocator)
    → (next_loop fuel tries n a).1 ≡ range start
    → (next_loop fuel tries n a).0.last ≡ some (start + n - 1)
unfolding next_loop taken refill_async
next_loop-last zero tries n start a h = cc
next_loop-last (suc fuel) tries n start a h =
    ground (arith, next_loop-last fuel tries n start (swap_sync (tries fuel) a).0)

next-last :
    (tries : ℕ → ℕ → Try) (n start : ℕ) (a : Allocator)
    → (next tries n a).1 ≡ range start
    → (next tries n a).0.last ≡ some (start + n - 1)
unfolding next
next-last tries n start a h = ground (arith, next_loop-last 2 tries n start a)

-- After a successful allocation the read-only water mark of the key is the last number given, and
-- no read of the database is needed for it.
pub current-alloc :
    (loads : ℕ → Try) (tries : ℕ → ℕ → Try) (rival : Option Allocator) (fails : Bool) (k : Key)
    (n start : ℕ) (p : Pool)
    → (alloc loads tries rival k n p).1 ≡ range start
    → current fails k (alloc loads tries rival k n p).0 ≡ some (start + n - 1)
unfolding alloc current peek with_allocator
current-alloc loads tries rival fails k n start p h =
    elim (Option-cases (for_key loads rival k p).1) [
      | inl e ↦ ground arith
      | inr (a, e) ↦
          let q = (for_key loads rival k p).0 in
          let b = record a { meta = q.meta } in
          ground (
            arith,
            e,
            lookup-insert_self k (next tries n b).0 q.allocators,
            next-last tries n start b,
          )
    ]

next_loop_local :
    (fuel : ℕ) (tries : ℕ → ℕ → Try) (n : ℕ) (j : Key) (a : Allocator)
    → j ≢ a.key
    → max_id j (next_loop fuel tries n a).0.meta ≡ max_id j a.meta
unfolding next_loop taken refill_async swap_sync
next_loop_local zero tries n j a ne = refl
next_loop_local (suc fuel) tries n j a ne = ground (
  arith,
  load_segment_local (tries fuel) a.key j a.step a.meta ne,
  next_loop_local fuel tries n j (swap_sync (tries fuel) a).0,
)

next_local :
    (tries : ℕ → ℕ → Try) (n : ℕ) (j : Key) (a : Allocator)
    → j ≢ a.key
    → max_id j (next tries n a).0.meta ≡ max_id j a.meta
unfolding next
next_local tries n j a ne = ground (arith, next_loop_local 2 tries n j a ne)

-- Each allocator of the map serves the key under which it stands.
abbrev pub IsKeyed : Pool → Type 0
IsKeyed p = (k : Key) (a : Allocator) → lookup k p.allocators ≡ some a → a.key ≡ k

new_allocator_local :
    (tries : ℕ → Try) (k j : Key) (step : ℕ) (t : Table)
    → j ≢ k
    → max_id j (new_allocator tries k step t).0 ≡ max_id j t
unfolding new_allocator
new_allocator_local tries k j step t ne = ground (arith, load_segment_local tries k j step t ne)

new_allocator-key :
    (tries : ℕ → Try) (k : Key) (step : ℕ) (t : Table) (a : Allocator)
    → (new_allocator tries k step t).1 ≡ some a
    → a.key ≡ k
unfolding new_allocator
new_allocator-key tries k step t a h = ground arith

-- What For leaves alone, and the key of the allocator that it gives.
abbrev Found : Key → Key → Pool → Pool × Option Allocator → Type 0
Found k j p (q, found) =
    (lookup j q.allocators ≡ lookup j p.allocators)
    × (max_id j q.meta ≡ max_id j p.meta)
    × ((a : Allocator) → found ≡ some a → a.key ≡ k)

for_key-Found :
    (loads : ℕ → Try) (k j : Key) (p : Pool)
    → IsKeyed p
    → j ≢ k
    → Found k j p (for_key loads none k p)
unfolding for_key
for_key-Found loads k j p keyed ne =
    let row = new_allocator_local loads k j p.step p.meta ne in
    elim (Option-cases (lookup k p.allocators)) [
      | inr (a, e) ↦ rw (e, for_key) (refl, refl, λ b h. keyed k b (e ∙ h))
      | inl e ↦ elim (Option-cases (new_allocator loads k p.step p.meta).1) [
        | inl f ↦ rw (e, f, for_key) (refl, row, λ b h. cc)
        | inr (a, f) ↦
            rw (e, f, for_key)
              (
                ground (arith, lookup-insert k j a p.allocators, pair_beq_iff k j),
                row,
                λ b h. new_allocator-key loads k p.step p.meta b (f ∙ h),
              )
      ]
    ]

-- An allocation for one key changes neither the row nor the allocator of another.
pub alloc_local :
    (loads : ℕ → Try) (tries : ℕ → ℕ → Try) (k j : Key) (n : ℕ) (p : Pool)
    → IsKeyed p
    → j ≢ k
    → let q = (alloc loads tries none k n p).0 in
      (lookup j q.allocators ≡ lookup j p.allocators) × (max_id j q.meta ≡ max_id j p.meta)
unfolding alloc with_allocator
alloc_local loads tries k j n p keyed ne =
    let (kept, row, own) = for_key-Found loads k j p keyed ne in
    elim (Option-cases (for_key loads none k p).1) [
      | inl e ↦ rw (e, alloc) (kept, row)
      | inr (a, e) ↦
          let q = (for_key loads none k p).0 in
          let b = record a { meta = q.meta } in
          rw (e, alloc)
            (
              ground (
                arith,
                kept,
                lookup-insert k j (next tries n b).0 q.allocators,
                pair_beq_iff k j,
              ),
              next_local tries n j b (λ h. ne (h ∙ own a e)) ∙ row,
            )
    ]
