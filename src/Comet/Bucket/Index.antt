-- ===== src/Comet/Bucket/Index.antt =====
-- Keeper of internal/comet/bucket.go as one map from user and device to a connection.
use yim.Base.{
  nat_eq, ℕ, zero, suc, ◌%◌, ◌≡◌, ◌<◌, refl, sym, ap, ◌∙◌, Bool, true, false, ◌&&◌, Option, none,
  some, [], ◌∷◌, arith, ◌==◌, if◌then◌else◌, get_elem?, set, length, Bool-cases, inl, inr,
}
use yim.Base.Map.{lookup, insert, erase, lookup-insert, lookup-erase}
use yim.Comet.Bucket.{
  bucket_count, Conn, Devices, Bucket, Keeper, bucket_for, bucket_or_empty, bucket,
  devices_or_empty, devices_of, put, add, without, shrink, remove_from, remove, get,
}

get_elem?-set_bucket :
    (k : Keeper) (i j : ℕ) (b : Bucket)
    → i < length k
    → get_elem? (set k i b) j ≡ (if i == j then some b else get_elem? k j)
get_elem?-set_bucket [] i j b lt = absurd (omega (arith, lt))
get_elem?-set_bucket (x ∷ k) zero zero b lt = refl
get_elem?-set_bucket (x ∷ k) zero (suc j) b lt = ground arith
get_elem?-set_bucket (x ∷ k) (suc i) zero b lt = ground arith
get_elem?-set_bucket (x ∷ k) (suc i) (suc j) b lt =
    ground (arith, get_elem?-set_bucket k i j b (omega (arith, lt)))

if-or_empty :
    (t : Bool) (b : Bucket) (o : Option Bucket)
    → bucket_or_empty (if t then some b else o) ≡ (if t then b else bucket_or_empty o)
if-or_empty true b o = refl
if-or_empty false b o = refl

if-devices :
    (t : Bool) (x o : Option Devices)
    → devices_or_empty (if t then x else o) ≡ (if t then devices_or_empty x else devices_or_empty o)
if-devices true x o = refl
if-devices false x o = refl

==_sound : (x y : ℕ) → (x == y) ≡ true → x ≡ y
==_sound x y same = ground (arith, same)

==-differ : (x y : ℕ) → (x % 16 == y % 16) ≡ false → (x == y) ≡ false
==-differ x y other = elim (Bool-cases (x == y)) [
  | inl same ↦ absurd (ground (arith, ap (λ n. n % 16) (==_sound x y same)))
  | inr differ ↦ differ
]

get-if :
    (c : Conn) (k : Keeper) (u d : ℕ)
    → lookup d (insert c.device_id c (devices_of k c.uid))
      ≡ (if c.device_id == d then some c else lookup d (devices_of k c.uid))
    → lookup d (if c.uid == u then insert c.device_id c (devices_of k c.uid) else devices_of k u)
      ≡ (if (c.uid == u) && (c.device_id == d) then some c else lookup d (devices_of k u))
get-if c k u d read = elim (Bool-cases (c.uid == u)) [
  | inl same ↦
      ap (λ t. lookup d (if t then insert c.device_id c (devices_of k c.uid) else devices_of k u))
        same
      ∙ read
      ∙ ap (λ v. if c.device_id == d then some c else lookup d (devices_of k v))
          (==_sound c.uid u same)
      ∙ ap (λ t. if t && (c.device_id == d) then some c else lookup d (devices_of k u)) (sym same)
  | inr other ↦
      ap (λ t. lookup d (if t then insert c.device_id c (devices_of k c.uid) else devices_of k u))
        other
      ∙ ap (λ t. if t && (c.device_id == d) then some c else lookup d (devices_of k u)) (sym other)
]

bucket-put :
    (k : Keeper) (uid u : ℕ) (b : Bucket)
    → length k ≡ bucket_count
    → bucket (put k uid b) u ≡ (if uid % 16 == u % 16 then b else bucket k u)
unfolding put bucket bucket_for
bucket-put k uid u b full =
    ap bucket_or_empty (get_elem?-set_bucket k (uid % 16) (u % 16) b (omega (arith, full)))
    ∙ if-or_empty (uid % 16 == u % 16) b (get_elem? k (u % 16))

bucket-same : (k : Keeper) (uid u : ℕ) → uid % 16 ≡ u % 16 → bucket k uid ≡ bucket k u
unfolding bucket bucket_for
bucket-same k uid u same = ap (λ i. bucket_or_empty (get_elem? k i)) same

-- The user's devices after a write of a bucket in which only one user changes.
devices_of-put :
    (k : Keeper) (uid u : ℕ) (b : Bucket) (dm : Devices)
    → length k ≡ bucket_count
    → ((v : ℕ)
        → devices_or_empty (lookup v b)
          ≡ (if uid == v then dm else devices_or_empty (lookup v (bucket k uid))))
    → devices_of (put k uid b) u ≡ (if uid == u then dm else devices_of k u)
unfolding devices_of
devices_of-put k uid u b dm full only = elim (Bool-cases (uid % 16 == u % 16)) [
  | inl same ↦
      ap (λ x. devices_or_empty (lookup u x))
        (bucket-put k uid u b full ∙ ap (λ t. if t then b else bucket k u) same)
      ∙ only u
      ∙ ap (λ x. if uid == u then dm else devices_or_empty (lookup u x))
          (bucket-same k uid u (ground (arith, same)))
  | inr other ↦
      ap (λ x. devices_or_empty (lookup u x))
        (bucket-put k uid u b full ∙ ap (λ t. if t then b else bucket k u) other)
      ∙ ap (λ t. if t then dm else devices_or_empty (lookup u (bucket k u)))
          (sym (==-differ uid u other))
]

lookup_devices-insert :
    (b : Bucket) (uid v : ℕ) (dm : Devices)
    → devices_or_empty (lookup v (insert uid dm b))
      ≡ (if uid == v then dm else devices_or_empty (lookup v b))
lookup_devices-insert b uid v dm =
    ap devices_or_empty (lookup-insert uid v dm b) ∙ if-devices (uid == v) (some dm) (lookup v b)

lookup_devices-erase :
    (b : Bucket) (uid v : ℕ)
    → devices_or_empty (lookup v (erase uid b))
      ≡ (if uid == v then [] else devices_or_empty (lookup v b))
lookup_devices-erase b uid v =
    ap devices_or_empty (lookup-erase uid v b) ∙ if-devices (uid == v) none (lookup v b)

-- After Add, Get gives the new connection for its user and device, in whose place it may have come, and
-- for any other pair what it gave before.
pub get-add_conn :
    (c : Conn) (k : Keeper) (u d : ℕ)
    → length k ≡ bucket_count
    → get u d (add c k) ≡ (if (c.uid == u) && (c.device_id == d) then some c else get u d k)
unfolding get add
get-add_conn c k u d full =
    ap (lookup d) (
      devices_of-put k c.uid u
        (insert c.uid (insert c.device_id c (devices_of k c.uid)) (bucket k c.uid))
        (insert c.device_id c (devices_of k c.uid)) full
        (λ v.
          lookup_devices-insert (bucket k c.uid) c.uid v
            (insert c.device_id c (devices_of k c.uid))))
    ∙ get-if c k u d (lookup-insert c.device_id d c (devices_of k c.uid))

-- What is left of a slot when c is removed.
abbrev pub other_than : Conn → Option Conn → Option Conn
other_than c none = none
other_than c (some cur) = if cur.id == c.id then none else some cur

abbrev without_found : Conn → Devices → Option Conn → Devices
without_found c dm none = dm
without_found c dm (some cur) = if cur.id == c.id then erase c.device_id dm else dm

without_lem : (c : Conn) (dm : Devices) → without c dm ≡ without_found c dm (lookup c.device_id dm)
unfolding without
without_lem c dm = elim (lookup c.device_id dm) [ none ↦ refl | some cur ↦ refl ]

if-same : (t : Bool) (x : Option Conn) → (if t then x else x) ≡ x
if-same true x = refl
if-same false x = refl

if-lookup :
    (t : Bool) (d : ℕ) (x y : Devices)
    → lookup d (if t then x else y) ≡ (if t then lookup d x else lookup d y)
if-lookup true d x y = refl
if-lookup false d x y = refl

by_test :
    (t : Bool) (x a b : Option Conn)
    → (t ≡ true → x ≡ a)
    → (t ≡ false → x ≡ b)
    → x ≡ (if t then a else b)
by_test true x a b holds otherwise = holds refl
by_test false x a b holds otherwise = otherwise refl

same_slot :
    (c : Conn) (dm : Devices) (d : ℕ) (o : Option Conn)
    → lookup c.device_id dm ≡ o
    → (c.device_id == d) ≡ true
    → lookup d dm ≡ o
same_slot c dm d o found same = ap (λ e. lookup e dm) (sym (==_sound c.device_id d same)) ∙ found

lookup-without_found :
    (c : Conn) (dm : Devices) (d : ℕ) (o : Option Conn)
    → lookup c.device_id dm ≡ o
    → lookup d (without_found c dm o)
      ≡ (if c.device_id == d then other_than c (lookup d dm) else lookup d dm)
lookup-without_found c dm d none found =
    by_test (c.device_id == d) (lookup d dm) (other_than c (lookup d dm)) (lookup d dm)
      (λ same.
        same_slot c dm d none found same
        ∙ ap (other_than c) (sym (same_slot c dm d none found same)))
      (λ other. refl)
lookup-without_found c dm d (some cur) found =
    if-lookup (cur.id == c.id) d (erase c.device_id dm) dm
    ∙ by_test (c.device_id == d)
        (if cur.id == c.id then lookup d (erase c.device_id dm) else lookup d dm)
        (other_than c (lookup d dm)) (lookup d dm)
        (λ same.
          ap (λ x. if cur.id == c.id then x else lookup d dm)
            (lookup-erase c.device_id d dm ∙ ap (λ t. if t then none else lookup d dm) same)
          ∙ ap (λ x. if cur.id == c.id then none else x) (same_slot c dm d (some cur) found same)
          ∙ ap (other_than c) (sym (same_slot c dm d (some cur) found same)))
        (λ other.
          ap (λ x. if cur.id == c.id then x else lookup d dm)
            (lookup-erase c.device_id d dm ∙ ap (λ t. if t then none else lookup d dm) other)
          ∙ if-same (cur.id == c.id) (lookup d dm))

lookup-without :
    (c : Conn) (dm : Devices) (d : ℕ)
    → lookup d (without c dm)
      ≡ (if c.device_id == d then other_than c (lookup d dm) else lookup d dm)
lookup-without c dm d =
    ap (lookup d) (without_lem c dm) ∙ lookup-without_found c dm d (lookup c.device_id dm) refl

devices_of-shrink :
    (k : Keeper) (uid u : ℕ) (dm : Devices)
    → length k ≡ bucket_count
    → devices_of (shrink k uid dm).0 u ≡ (if uid == u then dm else devices_of k u)
unfolding shrink
devices_of-shrink k uid u [] full =
    devices_of-put k uid u (erase uid (bucket k uid)) [] full
      (λ v. lookup_devices-erase (bucket k uid) uid v)
devices_of-shrink k uid u (d ∷ dm) full =
    devices_of-put k uid u (insert uid (d ∷ dm) (bucket k uid)) (d ∷ dm) full
      (λ v. lookup_devices-insert (bucket k uid) uid v (d ∷ dm))

no_devices :
    (c : Conn) (k : Keeper) → lookup c.uid (bucket k c.uid) ≡ none → devices_of k c.uid ≡ []
unfolding devices_of
no_devices c k found = ap devices_or_empty found

with_devices :
    (c : Conn) (k : Keeper) (dm : Devices)
    → lookup c.uid (bucket k c.uid) ≡ some dm
    → devices_of k c.uid ≡ dm
unfolding devices_of
with_devices c k dm found = ap devices_or_empty found

without-empty : (c : Conn) → without c [] ≡ []
unfolding without lookup
without-empty c = refl

get-if_without :
    (c : Conn) (k : Keeper) (u d : ℕ)
    → lookup d (if c.uid == u then without c (devices_of k c.uid) else devices_of k u) ≡ (
        if (c.uid == u) && (c.device_id == d)
        then other_than c (lookup d (devices_of k u))
        else lookup d (devices_of k u))
get-if_without c k u d = elim (Bool-cases (c.uid == u)) [
  | inl same ↦
      ap (λ t. lookup d (if t then without c (devices_of k c.uid) else devices_of k u)) same
      ∙ lookup-without c (devices_of k c.uid) d
      ∙ ap
          (λ v.
            if c.device_id == d
            then other_than c (lookup d (devices_of k v))
            else lookup d (devices_of k v))
          (==_sound c.uid u same)
      ∙ ap
          (λ t.
            if t && (c.device_id == d)
            then other_than c (lookup d (devices_of k u))
            else lookup d (devices_of k u))
          (sym same)
  | inr other ↦
      ap (λ t. lookup d (if t then without c (devices_of k c.uid) else devices_of k u)) other
      ∙ ap
          (λ t.
            if t && (c.device_id == d)
            then other_than c (lookup d (devices_of k u))
            else lookup d (devices_of k u))
          (sym other)
]

devices_of-remove_from :
    (c : Conn) (k : Keeper) (u : ℕ) (o : Option Devices)
    → length k ≡ bucket_count
    → lookup c.uid (bucket k c.uid) ≡ o
    → devices_of (remove_from c k o).0 u
      ≡ (if c.uid == u then without c (devices_of k c.uid) else devices_of k u)
devices_of-remove_from c k u none full found = elim (Bool-cases (c.uid == u)) [
  | inl same ↦
      ap (devices_of k) (sym (==_sound c.uid u same))
      ∙ no_devices c k found
      ∙ sym (without-empty c)
      ∙ ap (without c) (sym (no_devices c k found))
      ∙ ap (λ t. if t then without c (devices_of k c.uid) else devices_of k u) (sym same)
  | inr other ↦ ap (λ t. if t then without c (devices_of k c.uid) else devices_of k u) (sym other)
]
devices_of-remove_from c k u (some dm) full found =
    devices_of-shrink k c.uid u (without c dm) full
    ∙ ap (λ e. if c.uid == u then without c e else devices_of k u) (sym (with_devices c k dm found))

-- After Remove of an authenticated connection, its user and device have no connection when it was theirs;
-- a newer connection in its place stays, and so does any other pair.
pub get-remove_conn :
    (c : Conn) (k : Keeper) (u d : ℕ)
    → length k ≡ bucket_count
    → (c.uid == 0) ≡ false
    → get u d (remove c k).0
      ≡ (if (c.uid == u) && (c.device_id == d) then other_than c (get u d k) else get u d k)
unfolding get remove
get-remove_conn c k u d full known =
    ap
      (λ t. lookup d (
        devices_of (if t then (k, false) else remove_from c k (lookup c.uid (bucket k c.uid))).0 u))
      known
    ∙ ap (lookup d) (devices_of-remove_from c k u (lookup c.uid (bucket k c.uid)) full refl)
    ∙ get-if_without c k u d
