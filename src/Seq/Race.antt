-- ===== src/Seq/Race.antt =====
-- Next of internal/seq/allocator.go under concurrency: a caller takes its numbers by compare-and-swap
-- and stores the water mark `last` in a second step, so that other callers come in between.
use yim.Base.{ℕ, ◌+◌, ◌-◌, ◌≤◌, ◌<◌, ◌≡◌, refl, some, List, [], ◌∷◌, ◌++◌, arith}
use yim.Seq.{Allocator, Segment, take_cur, take_from, peek, cur_position}

-- What the callers have taken and not stored yet.
pub record Callers : Type 0 where
  pub shared : Allocator
  pub unstored : List ℕ

pub data Step : Callers → Callers → Type 0 where
  takes :
      (c : Callers) (n start : ℕ) (s : Segment)
      → take_cur c.shared.cur n ≡ some (start, s)
      → Step c (record {
        shared = record (c.shared) { cur = some s };
        unstored = (start + n - 1) ∷ c.unstored;
      })
  stores :
      (c : Callers) (before : List ℕ) (v : ℕ) (after : List ℕ)
      → c.unstored ≡ before ++ v ∷ after
      → Step c (record { shared = record (c.shared) { last = some v }; unstored = before ++ after })

pub data Reach (c : Callers) : Callers → Type 0 where
  here : Reach c c
  move : {d e : Callers} → Reach c d → Step d e → Reach c e

-- Two callers at rest that take `n` and `m` numbers of one segment may store in the other order:
-- then nothing is under way, and Peek gives less than the highest number given out.
pub peek-behind :
    (a : Allocator) (s : Segment) (n m : ℕ)
    → a.cur ≡ some s
    → 0 < n
    → 0 < m
    → s.cursor + n + m ≤ s.end
    → (c : Callers) × Reach (record { shared = a; unstored = [] }) c
      × (c.unstored ≡ [])
      × (v : ℕ) × (peek c.shared ≡ some v)
      × (v < cur_position c.shared)
unfolding take_cur take_from peek cur_position
peek-behind a s n m e pn pm room =
    let start1 = s.cursor + n - n + 1 in
    let start2 = s.cursor + n + m - m + 1 in
    let s1 = record s { cursor = s.cursor + n } in
    let s2 = record s { cursor = s.cursor + n + m } in
    let c0 : Callers = record { shared = a; unstored = [] } in
    let c1 : Callers = record {
      shared = record a { cur = some s1 };
      unstored = (start1 + n - 1) ∷ [];
    } in
    let c2 : Callers = record {
      shared = record a { cur = some s2 };
      unstored = (start2 + m - 1) ∷ (start1 + n - 1) ∷ [];
    } in
    let c3 : Callers = record {
      shared = record a { cur = some s2; last = some (start2 + m - 1) };
      unstored = (start1 + n - 1) ∷ [];
    } in
    (
      record { shared = record a { cur = some s2; last = some (start1 + n - 1) }; unstored = [] },
      move
          (move
            (move (move here (takes c0 n start1 s1 (ground arith)))
              (takes c1 m start2 s2 (ground arith)))
            (stores c2 [] (start2 + m - 1) ((start1 + n - 1) ∷ []) refl))
          (stores c3 [] (start1 + n - 1) [] refl),
      refl,
      start1 + n - 1,
      refl,
      omega arith,
    )
