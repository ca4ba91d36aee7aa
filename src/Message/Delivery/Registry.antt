-- ===== src/Message/Delivery/Registry.antt =====
-- pendingAcks of internal/message/delivery.go as a set of (uid, conv_id, seq), whatever the buckets are.
use yim.Base.{
  nat_eq, pair_eq, pair_beq_iff, ==_iff, ℕ, ◌≡◌, not, ◌||◌, ◌&&◌, none, some, [], ◌∷◌, arith, leb,
  ◌=?◌, if◌then◌else◌,
}
use yim.Base.Map.{Map, lookup, insert, erase, lookup-insert, lookup-erase}
use yim.Message.Delivery.{
  Fire, ConvKey, Registry, bucket, entry, register, alive, shrink, drop_upto, ack, remove,
}

entry-insert :
    (m : Registry) (k j : ConvKey) (b : Map ℕ Fire) (p : ℕ)
    → entry (insert k b m) j p ≡ (if k =? j then lookup p b else entry m j p)
unfolding entry bucket
entry-insert m k j b p = ground (arith, lookup-insert k j b m)

entry-erase :
    (m : Registry) (k j : ConvKey) (p : ℕ)
    → entry (erase k m) j p ≡ (if k =? j then none else entry m j p)
unfolding entry bucket lookup
entry-erase m k j p = ground (arith, lookup-erase k j m)

entry-shrink :
    (m : Registry) (k j : ConvKey) (b : Map ℕ Fire) (p : ℕ)
    → entry (shrink m k b) j p ≡ (if k =? j then lookup p b else entry m j p)
unfolding shrink lookup
entry-shrink m k j [] p = entry-erase m k j p
entry-shrink m k j (x ∷ b) p = entry-insert m k j (x ∷ b) p

lookup-drop_upto :
    (a p : ℕ) (b : Map ℕ Fire) → lookup p (drop_upto a b) ≡ (if leb p a then none else lookup p b)
unfolding drop_upto lookup
lookup-drop_upto a p [] = ground arith
lookup-drop_upto a p ((q, f) ∷ b) = ground (arith, lookup-drop_upto a p b, ==_iff q p)

pub entry-register :
    (m : Registry) (k j : ConvKey) (q p : ℕ) (f : Fire)
    → entry (register m k q f).0 j p ≡ (
        if (k =? j) && (q =? p)
        then elim (entry m k q) [ none ↦ some f | some g ↦ some g ]
        else entry m j p)
unfolding register entry
entry-register m k j q p f = ground (
  arith,
  entry-insert m k j (insert q f (bucket m k)) p,
  lookup-insert q p f (bucket m k),
  pair_beq_iff k j,
  ==_iff q p,
)

pub entry-ack :
    (m : Registry) (k j : ConvKey) (a p : ℕ)
    → entry (ack m k a) j p ≡ (if (k =? j) && leb p a then none else entry m j p)
unfolding ack entry
entry-ack m k j a p = ground (
  arith,
  entry-shrink m k j (drop_upto a (bucket m k)) p,
  lookup-drop_upto a p (bucket m k),
  pair_beq_iff k j,
)

pub entry-remove :
    (m : Registry) (k j : ConvKey) (q p : ℕ)
    → entry (remove m k q) j p ≡ (if (k =? j) && (q =? p) then none else entry m j p)
unfolding remove entry
entry-remove m k j q p = ground (
  arith,
  entry-shrink m k j (erase q (bucket m k)) p,
  lookup-erase q p (bucket m k),
  pair_beq_iff k j,
  ==_iff q p,
)

-- As a set: what is there, a key for which Registry.alive answers yes.
pub alive-register :
    (m : Registry) (k j : ConvKey) (q p : ℕ) (f : Fire)
    → alive (register m k q f).0 j p ≡ ((k =? j) && (q =? p)) || alive m j p
unfolding alive
alive-register m k j q p f =
    ground (arith, entry-register m k j q p f, pair_beq_iff k j, ==_iff q p)

-- An ACK takes the entries of its conversation up to its seq out of the registry, and no others.
pub alive-ack :
    (m : Registry) (k j : ConvKey) (a p : ℕ)
    → alive (ack m k a) j p ≡ alive m j p && not ((k =? j) && leb p a)
unfolding alive
alive-ack m k j a p = ground (arith, entry-ack m k j a p)

pub alive-remove :
    (m : Registry) (k j : ConvKey) (q p : ℕ)
    → alive (remove m k q) j p ≡ alive m j p && not ((k =? j) && (q =? p))
unfolding alive
alive-remove m k j q p = ground (arith, entry-remove m k j q p)
