-- ===== src/Fqm/Order.antt =====
-- The queue keeps its order and its count under every interleaving; its bound only without races.
use nastd.Prelude.{
  ℕ, ◌+◌, ◌≤◌, ◌<◌, ◌≡◌, ◌≢◌, refl, sym, ap, ◌∙◌, arith, true, false, ◌==◌, if◌then◌else◌, [], ◌∷◌,
  ◌++◌, some, length, length-append,
}
use mathlib.Core.List.{append_assoc}
use nastd.Prelude.Total.{update}
use nastd.Fqm.{Request, Fqm, is_full, enqueue, dequeue, fqm_push}
use nastd.Fqm.System.{
  away, passed, System, Step, test, refuse, push, pop, wait, wake, wake_none, served, die, kill,
  Reach, start, later,
}

-- What `dequeue` takes is the head of the queue.
dequeue_lem :
    (fqm : Fqm) (r : Request) (q : Fqm)
    → dequeue fqm ≡ some (r, q)
    → (fqm.queue ≡ r ∷ q.queue)
      × (q.nitems + 1 ≡ fqm.nitems + (if fqm.nitems == 0 then 1 else 0))
      × (q.maxitems ≡ fqm.maxitems)
unfolding dequeue
dequeue_lem fqm r q e = ground arith

-- every request went in, and those that came out came out in the order of going in
pub record IsOrdered (maxitems : ℕ) (s : System) : Type 0 where
  pub fifo : s.pushed ≡ s.popped ++ s.fqm.queue
  pub counted : s.fqm.nitems ≡ length s.fqm.queue
  pub bound : s.fqm.maxitems ≡ maxitems

pushed-IsOrdered :
    {m : ℕ} {s : System} (r : Request)
    → IsOrdered m s
    → (s.pushed ++ r ∷ [] ≡ s.popped ++ (enqueue r s.fqm).queue)
      × ((enqueue r s.fqm).nitems ≡ length (enqueue r s.fqm).queue)
      × ((enqueue r s.fqm).maxitems ≡ m)
unfolding enqueue
pushed-IsOrdered {s = s} r o = (
  ap (λ l. l ++ r ∷ []) o.fifo ∙ append_assoc s.popped s.fqm.queue (r ∷ []),
  omega (arith, length-append s.fqm.queue (r ∷ []), o.counted),
  o.bound,
)

popped-IsOrdered :
    {m : ℕ} {s : System} (r : Request) (q : Fqm)
    → IsOrdered m s
    → dequeue s.fqm ≡ some (r, q)
    → (s.pushed ≡ (s.popped ++ r ∷ []) ++ q.queue) × (q.nitems ≡ length q.queue) × (q.maxitems ≡ m)
popped-IsOrdered {s = s} r q o e =
    let (cut, count, bound) = dequeue_lem s.fqm r q e in
    (
      o.fifo ∙ ap (λ l. s.popped ++ l) cut ∙ sym (append_assoc s.popped (r ∷ []) q.queue),
      ground (arith, ap length cut, o.counted),
      bound ∙ o.bound,
    )

Step-IsOrdered : {m : ℕ} {s t : System} → Step s t → IsOrdered m s → IsOrdered m t
Step-IsOrdered (test j r a f) o = record { fifo = o.fifo; counted = o.counted; bound = o.bound }
Step-IsOrdered (refuse j a f) o = o
Step-IsOrdered (push j r a) o =
    let (f, c, b) = pushed-IsOrdered r o in record { fifo = f; counted = c; bound = b }
Step-IsOrdered (pop i r q w e) o =
    let (f, c, b) = popped-IsOrdered r q o e in record { fifo = f; counted = c; bound = b }
Step-IsOrdered (wake i r q w e) o =
    let (f, c, b) = popped-IsOrdered r q o e in record { fifo = f; counted = c; bound = b }
Step-IsOrdered (wait i w e) o = record { fifo = o.fifo; counted = o.counted; bound = o.bound }
Step-IsOrdered (wake_none i w e) o = record { fifo = o.fifo; counted = o.counted; bound = o.bound }
Step-IsOrdered (served i r w) o = record { fifo = o.fifo; counted = o.counted; bound = o.bound }
Step-IsOrdered (die i st w) o = record { fifo = o.fifo; counted = o.counted; bound = o.bound }
Step-IsOrdered (kill i) o = record { fifo = o.fifo; counted = o.counted; bound = o.bound }

-- In every reachable state of any number of clients and workers, the requests that went in are
-- those that came out, in that order, followed by those in the queue, and `nitems` is the number in
-- the queue.
pub Reach-IsOrdered : {m : ℕ} {s : System} → Reach m s → IsOrdered m s
Reach-IsOrdered start = record { fifo = refl; counted = refl; bound = refl }
Reach-IsOrdered (later r st) = Step-IsOrdered st (Reach-IsOrdered r)

-- With no other thread in between, `fqm_push` on a queue within its bound returns 0 and appends the
-- request if there is room, and otherwise returns -1 and leaves the queue, being full; the bound is kept.
pub fqm_push_bounded :
    (req : Request) (fqm : Fqm)
    → fqm.nitems ≤ fqm.maxitems
    → ((fqm_push req fqm).1.nitems ≤ fqm.maxitems)
      × ((fqm_push req fqm).1.queue
          ≡ (if (fqm_push req fqm).0 then fqm.queue ++ req ∷ [] else fqm.queue))
      × (((fqm_push req fqm).0 ≡ false) → fqm.nitems ≡ fqm.maxitems)
unfolding fqm_push is_full enqueue
fqm_push_bounded req fqm h = ground arith

pub data Steps (s : System) : System → Type 0 where
  here : Steps s s
  more : {t u : System} → Steps s t → Step t u → Steps s u

room_is_open : (fqm : Fqm) → fqm.nitems + 1 ≡ fqm.maxitems → is_full fqm ≡ false
unfolding is_full
room_is_open fqm h = ground arith

over_bound :
    (fqm : Fqm) (r r' : Request)
    → fqm.nitems + 1 ≡ fqm.maxitems
    → (enqueue r' (enqueue r fqm)).maxitems < (enqueue r' (enqueue r fqm)).nitems
unfolding enqueue
over_bound fqm r r' h = omega arith

-- Two clients that test before either pushes overfill the queue: from every reachable state with
-- room for one more and two clients about to push, steps of these lead over the bound.
pub push_race :
    {m : ℕ} {s : System} (i j : ℕ) (r r' : Request)
    → Reach m s
    → i ≢ j
    → s.pusher i ≡ away
    → s.pusher j ≡ away
    → s.fqm.nitems + 1 ≡ m
    → (t : System) × Steps s t × (t.fqm.maxitems < t.fqm.nitems)
push_race {s = s} i j r r' reach ne a b room =
    let o = Reach-IsOrdered reach in
    let open_now : is_full s.fqm ≡ false = room_is_open s.fqm (omega (arith, o.bound)) in
    let other : update s.pusher i (passed r) j ≡ away = ground arith in
    let first : update (update s.pusher i (passed r)) j (passed r') i ≡ passed r = ground arith in
    let second : update (update (update s.pusher i (passed r)) j (passed r')) i away j ≡ passed r' =
      ground arith in
    (
      _,
      more
          (more (more (more here (test i r a open_now)) (test j r' other open_now))
            (push i r first))
          (push j r' second),
      over_bound s.fqm r r' (omega (arith, o.bound)),
    )

-- An overfull queue refuses nothing.
pub overfull_accepts :
    (req : Request) (fqm : Fqm) → fqm.maxitems < fqm.nitems → (fqm_push req fqm).0 ≡ true
unfolding fqm_push is_full
overfull_accepts req fqm h = ground arith
