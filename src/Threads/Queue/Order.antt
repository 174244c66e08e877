-- ===== src/Threads/Queue/Order.antt =====
-- The queue is first in, first out: `queue_waiting_thread` appends, waking takes from the front.
use test_kernel.Base.{
  ℕ, ◌+◌, ◌^◌, ◌<◌, ◌≡◌, ◌≢◌, refl, sym, ap, subst, ◌∙◌, true, false, Option, some, List, [], ◌∷◌,
  ◌++◌, arith, length, length-append, update, update-same, update-ne, ◌==◌, if◌then◌else◌, u32,
}
use test_kernel.Threads.{wake_thread, pause_curr_thread, get_current_thread_id}
use test_kernel.Threads.Queue.{
  Entry, World, locked, wake_head, wake_queued_thread, enqueue, queue_waiting_thread, then_pause,
}

-- The waiting threads as a list: the address of the entry, and the thread.
abbrev pub Waiting : Type 0
Waiting = List (ℕ × ℕ)

abbrev pub NotIn : ℕ → Waiting → Type 0
NotIn a [] = Unit
NotIn a ((b, t) ∷ es) = (a ≢ b) × NotIn a es

abbrev pub Distinct : Waiting → Type 0
Distinct [] = Unit
Distinct ((a, t) ∷ es) = NotIn a es × Distinct es

-- From `p` the `next` pointers lead through the entries `es` to the null pointer.
abbrev pub Chain : (ℕ → Entry) → ℕ → Waiting → Type 0
Chain m p [] = p ≡ 0
Chain m p ((a, t) ∷ es) = (p ≡ a) × (a ≢ 0) × ((m a).thread_id ≡ t) × Chain m (m a).next es

-- The last of `b` and the entries behind it, and of a whole list.
abbrev pub last_from : ℕ → Waiting → ℕ
last_from b [] = b
last_from b ((c, v) ∷ es) = last_from c es

abbrev pub last_address : Waiting → ℕ
last_address [] = 0
last_address ((b, u) ∷ es) = last_from b es

-- The queue holds the threads `es`, in this order.
pub record Lists (w : World) (es : Waiting) : Type 0 where
  pub chain : Chain w.entries w.queue.head es
  pub distinct : Distinct es
  pub tail : w.queue.tail ≡ last_address es
  pub count : w.queue.count ≡ length es

-- The same of a queue that is not locked.
pub record Holds (w : World) (es : Waiting) : Type 0 where
  pub lists : Lists w es
  pub unlocked : w.queue.lock ≡ 0

Chain-update :
    (m : ℕ → Entry) (p x : ℕ) (e : Entry) (es : Waiting)
    → NotIn x es
    → Chain m p es
    → Chain (update m x e) p es
Chain-update m p x e [] out c = c
Chain-update m p x e ((a, t) ∷ es) (ne, out) (at, nz, id, c) =
    rw (update-ne m x a e (λ q. ne (sym q))) (at, nz, id, Chain-update m _ x e es out c)

last_from-ne : (b c : ℕ) (es : Waiting) → c ≢ b → NotIn b es → last_from c es ≢ b
last_from-ne b c [] ne out = ne
last_from-ne b c ((d, u) ∷ es) ne (ne', out) = last_from-ne b d es (λ e. ne' (sym e)) out

-- Linking a fresh entry behind the last one appends it.
Chain-snoc :
    (m : ℕ → Entry) (p a t b u : ℕ) (es : Waiting)
    → a ≢ 0
    → NotIn a ((b, u) ∷ es)
    → Distinct ((b, u) ∷ es)
    → (m a).next ≡ 0
    → (m a).thread_id ≡ t
    → Chain m p ((b, u) ∷ es)
    → Chain
        (update m (last_from b es) (record (m (last_from b es)) { next = a }))
        p
        (((b, u) ∷ es) ++ ((a, t) ∷ []))
Chain-snoc m p a t b u [] nz (ne, _) d end ta (at, bz, id, c) =
    rw (update-same m b, update-ne m b a _ ne) (at, bz, id, (refl, nz, ta, end))
Chain-snoc m p a t b u ((c, v) ∷ es) nz (ne, out) ((nc, dn), d) end ta (at, bz, id, ch) =
    rw (update-ne m (last_from c es) b _ (λ q. last_from-ne b c es (λ e. nc (sym e)) dn (sym q)))
      (at, bz, id, Chain-snoc m _ a t c v es nz out d end ta ch)

-- A body that keeps the lock runs between its capture and its release.
abbrev pub with_lock : ℕ → World → World
with_lock l w = record w { queue = record w.queue { lock = l } }

pub locked-some :
    (f : World → Option World) (w v : World)
    → w.queue.lock ≡ 0
    → f (with_lock 1 w) ≡ some v
    → v.queue.lock ≡ 1
    → locked f w ≡ some (with_lock 0 v)
unfolding locked
locked-some f w v free ran kept = ground arith

pub Holds-with_lock : {w : World} {es : Waiting} → Lists w es → Holds (with_lock 0 w) es
Holds-with_lock l = record {
  lists = record { chain = l.chain; distinct = l.distinct; tail = l.tail; count = l.count };
  unlocked = refl;
}

pub Lists-with_lock : {w : World} {es : Waiting} → Lists w es → Lists (with_lock 1 w) es
Lists-with_lock l = record {
  chain = l.chain;
  distinct = l.distinct;
  tail = l.tail;
  count = l.count;
}

NotIn-snoc : (a t b : ℕ) (es : Waiting) → b ≢ a → NotIn b es → NotIn b (es ++ ((a, t) ∷ []))
NotIn-snoc a t b [] ne out = (ne, tt)
NotIn-snoc a t b ((c, v) ∷ es) ne (nc, out) = (nc, NotIn-snoc a t b es ne out)

Distinct-snoc : (a t : ℕ) (es : Waiting) → NotIn a es → Distinct es → Distinct (es ++ ((a, t) ∷ []))
Distinct-snoc a t [] out d = (tt, tt)
Distinct-snoc a t ((b, u) ∷ es) (ne, out) (nb, d) =
    (NotIn-snoc a t b es (λ q. ne (sym q)) nb, Distinct-snoc a t es out d)

last_from-snoc : (a t b : ℕ) (es : Waiting) → last_from b (es ++ ((a, t) ∷ [])) ≡ a
last_from-snoc a t b [] = refl
last_from-snoc a t b ((c, v) ∷ es) = last_from-snoc a t c es

-- The fresh entry in memory, before it is linked.
abbrev pub entered : ℕ → World → ℕ → Entry
entered a w = update w.entries a (record { next = 0; thread_id = w.kernel.curr_thread_index })

module _ (a : ℕ) (w : World) where
  pub enqueue-first :
      (w.queue.head == 0) ≡ true
      → ((enqueue a w).entries ≡ entered a w) × ((enqueue a w).queue.head ≡ a)
  unfolding enqueue get_current_thread_id
  enqueue-first null = (rw null, rw null)

  pub enqueue-behind :
      (w.queue.head == 0) ≡ false
      → ((enqueue a w).entries
          ≡ update (entered a w) w.queue.tail (record (entered a w w.queue.tail) { next = a }))
        × ((enqueue a w).queue.head ≡ w.queue.head)
  unfolding enqueue get_current_thread_id
  enqueue-behind not_null = (rw not_null, rw not_null)

  pub enqueue-ends :
      ((enqueue a w).queue.tail ≡ a)
      × ((enqueue a w).queue.count ≡ u32 (w.queue.count + 1))
      × ((enqueue a w).queue.lock ≡ w.queue.lock)
      × ((enqueue a w).kernel ≡ w.kernel)
  unfolding enqueue
  enqueue-ends = (refl, refl, refl, refl)

pub enqueue-Lists :
    (a : ℕ) (w : World) (es : Waiting)
    → Lists w es
    → a ≢ 0
    → NotIn a es
    → length es + 1 < 2 ^ 32
    → Lists (enqueue a w) (es ++ ((a, w.kernel.curr_thread_index) ∷ []))
enqueue-Lists a w [] l nz fresh room = record {
  chain =
      subst (λ m. Chain m (enqueue a w).queue.head ((a, w.kernel.curr_thread_index) ∷ []))
        (sym linked.0)
        (
          linked.1,
          nz,
          ap (λ (e : Entry). e.thread_id) (update-same w.entries a _),
          ap (λ (e : Entry). e.next) (update-same w.entries a _),
        );
  distinct = (tt, tt);
  tail = (enqueue-ends a w).0;
  count = omega (arith, l.count, (enqueue-ends a w).1);
}
  where
    linked : ((enqueue a w).entries ≡ entered a w) × ((enqueue a w).queue.head ≡ a)
    linked = enqueue-first a w (ground (arith, l.chain))
enqueue-Lists a w ((b, u) ∷ es) l nz fresh room = record {
  chain =
      subst (λ m. Chain m (enqueue a w).queue.head (((b, u) ∷ es) ++ ((a, t) ∷ [])))
        (sym (
          linked.0
          ∙ ap (λ (x : ℕ). update (entered a w) x (record (entered a w x) { next = a })) l.tail))
        (subst
          (λ p.
            Chain
              (update (entered a w) (last_from b es)
                (record (entered a w (last_from b es)) { next = a }))
              p (((b, u) ∷ es) ++ ((a, t) ∷ [])))
          (sym linked.1)
          (Chain-snoc (entered a w) w.queue.head a t b u es nz fresh l.distinct
            (ap (λ (e : Entry). e.next) (update-same w.entries a _))
            (ap (λ (e : Entry). e.thread_id) (update-same w.entries a _))
            (Chain-update w.entries w.queue.head a _ ((b, u) ∷ es) fresh l.chain)));
  distinct = Distinct-snoc a t ((b, u) ∷ es) fresh l.distinct;
  tail = (enqueue-ends a w).0 ∙ sym (last_from-snoc a t b es);
  count = omega (arith, l.count, (enqueue-ends a w).1, length-append {0} es ((a, t) ∷ []));
}
  where
    t : ℕ
    t = w.kernel.curr_thread_index

    linked :
        ((enqueue a w).entries
          ≡ update (entered a w) w.queue.tail (record (entered a w w.queue.tail) { next = a }))
        × ((enqueue a w).queue.head ≡ w.queue.head)
    linked = enqueue-behind a w (ground (arith, l.chain))

pub wake_head-Lists :
    (w : World) (a t : ℕ) (es : Waiting)
    → Lists w ((a, t) ∷ es)
    → length es + 1 < 2 ^ 32
    → Lists (wake_head w) es
unfolding wake_head
wake_head-Lists w a t es l room = record {
  chain = rw l.chain.0 l.chain.3;
  distinct = l.distinct.1;
  tail = rw l.chain.0 (tail_of es l.chain.3 l.tail);
  count = omega (arith, l.count);
}
  where
    tail_of :
        (es : Waiting)
        → Chain w.entries (w.entries a).next es
        → w.queue.tail ≡ last_from a es
        → (if (w.entries a).next == 0 then 0 else w.queue.tail) ≡ last_address es
    tail_of [] end q = rw end
    tail_of ((c, v) ∷ es) (at, nz, id, rest) q = ground (arith, at, nz, q)

pub queue_waiting_thread-locked :
    (a : ℕ) (w : World) → queue_waiting_thread a w ≡ then_pause (locked (λ v. some (enqueue a v)) w)
unfolding queue_waiting_thread
queue_waiting_thread-locked a w = refl

pub wake_queued_thread-locked :
    (w : World)
    → wake_queued_thread w ≡ locked (λ v. some (if v.queue.head == 0 then v else wake_head v)) w
unfolding wake_queued_thread
wake_queued_thread-locked w = refl

pub wake_head-same :
    (w : World)
    → ((wake_head w).queue.lock ≡ w.queue.lock)
      × ((wake_head w).kernel ≡ (wake_thread (w.entries w.queue.head).thread_id w.kernel).1)
unfolding wake_head
wake_head-same w = (refl, refl)

-- A thread whose entry is fresh, on a queue that is not locked: its entry comes last, and the
-- thread is paused. Nothing else changes in the table.
pub queue_waiting_thread-appends :
    (a : ℕ) (w : World) (es : Waiting)
    → Holds w es
    → a ≢ 0
    → NotIn a es
    → length es + 1 < 2 ^ 32
    → (n : World) × (queue_waiting_thread a w ≡ some n)
      × Holds n (es ++ ((a, w.kernel.curr_thread_index) ∷ []))
      × (n.kernel ≡ pause_curr_thread w.kernel)
queue_waiting_thread-appends a w es h nz fresh room = (
  record (with_lock 0 v) { kernel = pause_curr_thread v.kernel },
  queue_waiting_thread-locked a w
      ∙ ap then_pause (
          locked-some (λ u. some (enqueue a u)) w v h.unlocked refl
            (enqueue-ends a (with_lock 1 w)).2),
  record {
    lists = record {
      chain = held.lists.chain;
      distinct = held.lists.distinct;
      tail = held.lists.tail;
      count = held.lists.count;
    };
    unlocked = refl;
  },
  ap pause_curr_thread (enqueue-ends a (with_lock 1 w)).3,
)
  where
    v : World
    v = enqueue a (with_lock 1 w)

    held : Holds (with_lock 0 v) (es ++ ((a, w.kernel.curr_thread_index) ∷ []))
    held =
        Holds-with_lock (enqueue-Lists a (with_lock 1 w) es (Lists-with_lock h.lists) nz fresh room)

-- Waking from an empty queue changes nothing but for the lock, which is free again.
pub wake_queued_thread-empty :
    (w : World)
    → Holds w []
    → (n : World) × (wake_queued_thread w ≡ some n) × Holds n [] × (n.kernel ≡ w.kernel)
wake_queued_thread-empty w h = (
  with_lock 0 w,
  wake_queued_thread-locked w ∙ locked-some _ w (with_lock 1 w) h.unlocked (rw null) refl,
  Holds-with_lock h.lists,
  refl,
)
  where
    null : (w.queue.head == 0) ≡ true
    null = ground (arith, h.lists.chain)

-- Waking from a queue that is not empty takes the entry that came first, and wakes its thread.
pub wake_queued_thread-first :
    (w : World) (a t : ℕ) (es : Waiting)
    → Holds w ((a, t) ∷ es)
    → length es + 1 < 2 ^ 32
    → (n : World) × (wake_queued_thread w ≡ some n)
      × Holds n es
      × (n.kernel ≡ (wake_thread t w.kernel).1)
wake_queued_thread-first w a t es h room = (
  with_lock 0 (wake_head (with_lock 1 w)),
  wake_queued_thread-locked w
      ∙ locked-some _ w (wake_head (with_lock 1 w)) h.unlocked (rw not_null)
          (wake_head-same (with_lock 1 w)).0,
  Holds-with_lock (wake_head-Lists (with_lock 1 w) a t es (Lists-with_lock h.lists) room),
  (wake_head-same (with_lock 1 w)).1 ∙ ap (λ (i : ℕ). (wake_thread i w.kernel).1) first,
)
  where
    not_null : (w.queue.head == 0) ≡ false
    not_null = ground (arith, h.lists.chain)

    first : (w.entries w.queue.head).thread_id ≡ t
    first = rw h.lists.chain.0 h.lists.chain.2
