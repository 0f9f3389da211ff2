-- ===== src/Workers/ListQueue.antt =====
-- A list as the queue of a worker group (include/preemptive_executor/worker_group.hpp): a queue that
-- meets what the code expects of moodycamel::ConcurrentQueue, for concrete runs.
use preemptive_executor.Common.{
  ◌+◌, ◌≡◌, refl, Bool, Option, none, some, List, [], ◌∷◌, ◌++◌, length, keep, if◌then◌else◌,
  keep-append, length-append, arith,
}
use preemptive_executor.Workers.{ConcurrentQueue}

abbrev pub take_first {ℓ} : {A : Type ℓ} → List A → Option A × List A
take_first [] = (none, [])
take_first (x ∷ xs) = (some x, xs)

pub count-take_first :
    {A : Type 0} (p : A → Bool) (x : A) (q r : List A)
    → take_first q ≡ (some x, r)
    → length (keep p q) ≡ length (keep p r) + (if p x then 1 else 0)
count-take_first p x [] r h = ground (arith, h)
count-take_first p x (y ∷ q) r h = ground (arith, h)

pub count-take_miss :
    {A : Type 0} (p : A → Bool) (q r : List A)
    → take_first q ≡ (none, r)
    → length (keep p q) ≡ length (keep p r)
count-take_miss p [] r h = ground (arith, h)
count-take_miss p (y ∷ q) r h = ground (arith, h)

pub count-extend :
    {A : Type 0} (p : A → Bool) (xs q r : List A)
    → Path (Option (List A)) (some (q ++ xs)) (some r)
    → length (keep p r) ≡ length (keep p q) + length (keep p xs)
count-extend p xs q r h =
    ground (arith, h, keep-append p q xs, length-append (keep p q) (keep p xs))

-- A queue that never misses and never runs out of memory.
abbrev pub list_queue : (A : Type 0) → ConcurrentQueue A
list_queue A = record {
  Queue = List A;
  create = [];
  enqueue_bulk = λ xs q. some (q ++ xs);
  try_dequeue = take_first;
  count = λ p q. length (keep p q);
  count-create = λ p. refl;
  count-enqueue_bulk = λ p xs q r h. count-extend p xs q r h;
  count-try_dequeue = λ p x q r h. count-take_first p x q r h;
  count-miss = λ p q r h. count-take_miss p q r h;
}
