-- ===== src/NetThreadPool/Conserved.antt =====
-- No task of the pool of http_client/thread_pool.cpp is lost or run twice.
use cpp_done.NetThreadPool.{
  ThreadPool, notify_not_empty, push, run, stop, pop, Step, calls, pushes, blocks, rouses, stops,
  enters, exits, sleeps, wakes, takes_none, takes, takes_and_notifies, finishes, Reach, here, next,
}
use cpp_done.Prelude.{ℕ, ◌+◌, ◌≡◌, ap, ◌∙◌, List, [], ◌∷◌, ◌++◌, arith}

-- the sum of the weights of the elements: two lists that weigh the same for all weights have the same
-- elements, each as often
abbrev pub weigh {ℓ} : {T : Type ℓ} → (T → ℕ) → List T → ℕ
weigh f [] = 0
weigh f (x ∷ xs) = f x + weigh f xs

pub weigh-append {ℓ} :
    {T : Type ℓ} (f : T → ℕ) (xs ys : List T) → weigh f (xs ++ ys) ≡ weigh f xs + weigh f ys
weigh-append f [] ys = omega arith
weigh-append f (x ∷ xs) ys = omega (arith, weigh-append f xs ys)

module _ {T : Type 0} where
  -- the task that a step gives to `run`
  abbrev pub given : {p q : ThreadPool T} → Step p q → List T
  given (calls task) = task ∷ []
  given (pushes before after task e f) = []
  given (blocks before after task e f) = []
  given (rouses before after task e) = []
  given stops = []
  given (enters h r) = []
  given (exits h r) = []
  given (sleeps h e r) = []
  given (wakes h) = []
  given (takes_none h e r) = []
  given (takes task rest h e f) = []
  given (takes_and_notifies task rest before after waiter h e m b) = []
  given (finishes before after task e) = []

  abbrev pub all_given : {p q : ThreadPool T} → Reach p q → List T
  all_given here = []
  all_given (next r s) = all_given r ++ given s

  -- the tasks done, in a thread, queued, and in the hands of a caller
  abbrev pub total : (T → ℕ) → ThreadPool T → ℕ
  total f p =
      weigh f p.done + weigh f p.executing + weigh f p.queue + weigh f p.calling + weigh f p.blocked

  -- an element in the middle
  pub weigh-middle :
      (f : T → ℕ) (xs before after : List T) (x : T)
      → xs ≡ before ++ x ∷ after
      → weigh f xs ≡ weigh f (before ++ after) + f x
  weigh-middle f xs before after x e =
      ap (weigh f) e ∙ omega (arith, weigh-append f before (x ∷ after), weigh-append f before after)

  pub Step-total :
      (f : T → ℕ) {p q : ThreadPool T} (s : Step p q) → total f q ≡ total f p + weigh f (given s)
  unfolding run push notify_not_empty stop pop
  Step-total f {p} (calls task) =
      ground (arith, weigh-append f p.done (task ∷ []), weigh-append f p.calling (task ∷ []))
  Step-total f {p} (pushes before after task e n) =
      ground
        (arith, weigh-middle f p.calling before after task e, weigh-append f p.queue (task ∷ []))
  Step-total f {p} (blocks before after task e n) =
      ground
        (arith, weigh-middle f p.calling before after task e, weigh-append f p.blocked (task ∷ []))
  Step-total f {p} (rouses before after task e) =
      ground
        (arith, weigh-middle f p.blocked before after task e, weigh-append f p.calling (task ∷ []))
  Step-total f stops = omega arith
  Step-total f (enters h r) = omega arith
  Step-total f (exits h r) = omega arith
  Step-total f (sleeps h e r) = omega arith
  Step-total f (wakes h) = omega arith
  Step-total f (takes_none h e r) = omega arith
  Step-total f {p} (takes task rest h e n) =
      ground (arith, ap (weigh f) e, weigh-append f p.executing (task ∷ []))
  Step-total f {p} (takes_and_notifies task rest before after waiter h e m b) = ground (
    arith,
    ap (weigh f) e,
    weigh-middle f p.blocked before after waiter b,
    weigh-append f p.calling (waiter ∷ []),
    weigh-append f p.executing (task ∷ []),
  )
  Step-total f {p} (finishes before after task e) =
      ground
        (arith, weigh-middle f p.executing before after task e, weigh-append f p.done (task ∷ []))

  -- every task given to `run` is at one place, whatever it weighs
  pub Reach-total :
      (f : T → ℕ) {p q : ThreadPool T} (r : Reach p q)
      → total f q ≡ total f p + weigh f (all_given r)
  Reach-total f here = omega arith
  Reach-total f (next r s) =
      omega (arith, Reach-total f r, Step-total f s, weigh-append f (all_given r) (given s))
