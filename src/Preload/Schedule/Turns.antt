-- ===== src/Preload/Schedule/Turns.antt =====
-- The states that one call over the channel of ipc.c goes through: whatever the schedule, at each of
-- them one side moves on and the other is blocked.
use core_partitioning.Base.{
  ℕ, zero, suc, ◌+◌, ◌≤◌, ◌<◌, ◌≡◌, refl, Bool, true, false, not, arith, ltb, leb, ◌||◌, get_or,
  ℕ_discrete, List, [], ◌∷◌,
}
use mathlib.Core.Path.{subst}
use core_partitioning.Table.{Semaphores, fresh_sems}
use core_partitioning.Preload.Request.{Request, Originals}
use core_partitioning.Preload.Thread.{Thread, round}
use core_partitioning.Preload.Channel.{Message, args, retval}
use core_partitioning.Preload.Schedule.{
  Caller, wait_empty, wait_mutex, write_args, post_mutex, post_full, wait_full2, wait_mutex2,
  read_retval, post_mutex2, post_empty2, returned, Server, take_full, take_mutex, read_args,
  give_mutex, give_empty, executing, take_empty2, take_mutex2, write_retval, give_mutex2,
  give_full2, Exchange, call_at, serve_at, turn, begin_call,
}

abbrev pub is_returned : Caller → Bool
is_returned returned = true
is_returned _ = false

abbrev sems : (empty mutex full empty2 mutex2 full2 : ℕ) → Semaphores
sems e m f e2 m2 f2 = record {
  sem_thread = 1;
  full = f;
  full2 = f2;
  empty = e;
  empty2 = e2;
  mutex = m;
  mutex2 = m2;
}

module _ {W : Type 0} (o : Originals W) (r : Request) (buffer answer asked : Message) (t : Thread)
    (w : W) where
  abbrev after : Thread × W
  after = round o r t w

  -- The states by what has been copied: nothing, the request into the buffer, the request out of it,
  -- the same with the call made, the reply into the buffer, the reply out of it.
  abbrev before : Caller → Server → Semaphores → Exchange W
  before c v n = record {
    sems = n;
    message = buffer;
    caller = c;
    request = r;
    answer = answer;
    server = v;
    asked = asked;
    thread = t;
    world = w;
  }

  abbrev sent : Caller → Server → Semaphores → Exchange W
  sent c v n = record (before c v n) { message = args r }

  abbrev read : Caller → Server → Semaphores → Exchange W
  read c v n = record (sent c v n) { asked = args r }

  abbrev served : Caller → Server → Semaphores → Exchange W
  served c v n = record (read c v n) { thread = after.0; world = after.1 }

  abbrev replied : Caller → Server → Semaphores → Exchange W
  replied c v n = record (served c v n) { message = retval after.0.recv_data }

  abbrev received : Caller → Server → Semaphores → Exchange W
  received c v n = record (replied c v n) { answer = retval after.0.recv_data }

  abbrev pub finished : Exchange W
  finished = received returned take_full fresh_sems

  abbrev states : List (Exchange W)
  states =
      before wait_empty take_full (sems 1 1 0 1 1 0)
      ∷ before wait_mutex take_full (sems 0 1 0 1 1 0)
      ∷ before write_args take_full (sems 0 0 0 1 1 0)
      ∷ sent post_mutex take_full (sems 0 0 0 1 1 0)
      ∷ sent post_full take_full (sems 0 1 0 1 1 0)
      ∷ sent wait_full2 take_full (sems 0 1 1 1 1 0)
      ∷ sent wait_full2 take_mutex (sems 0 1 0 1 1 0)
      ∷ sent wait_full2 read_args (sems 0 0 0 1 1 0)
      ∷ read wait_full2 give_mutex (sems 0 0 0 1 1 0)
      ∷ read wait_full2 give_empty (sems 0 1 0 1 1 0)
      ∷ read wait_full2 executing (sems 1 1 0 1 1 0)
      ∷ served wait_full2 take_empty2 (sems 1 1 0 1 1 0)
      ∷ served wait_full2 take_mutex2 (sems 1 1 0 0 1 0)
      ∷ served wait_full2 write_retval (sems 1 1 0 0 0 0)
      ∷ replied wait_full2 give_mutex2 (sems 1 1 0 0 0 0)
      ∷ replied wait_full2 give_full2 (sems 1 1 0 0 1 0)
      ∷ replied wait_full2 take_full (sems 1 1 0 0 1 1)
      ∷ replied wait_mutex2 take_full (sems 1 1 0 0 1 0)
      ∷ replied read_retval take_full (sems 1 1 0 0 0 0)
      ∷ received post_mutex2 take_full (sems 1 1 0 0 0 0)
      ∷ received post_empty2 take_full (sems 1 1 0 0 1 0)
      ∷ received returned take_full (sems 1 1 0 1 1 0)
      ∷ []

  unfoldable pub state : ℕ → Exchange W
  state n = get_or states n finished

  -- Who moves in the n-th state: the caller sends in five steps, the thread serves in eleven, the
  -- caller receives in five.
  unfoldable pub mover : ℕ → Bool
  mover n = ltb n 5 || leb 16 n

  -- One side goes on to the next state, the other is blocked, and the call has not returned.
  abbrev Steady : ℕ → Type 0
  Steady n =
      (turn o (mover n) (state n) ≡ state (suc n))
      × (turn o (not (mover n)) (state n) ≡ state n)
      × (is_returned (state n).caller ≡ false)

  abbrev From : (count n : ℕ) → Type 0
  From zero n = Unit
  From (suc count) n = Steady n × From count (n + 1)

  all_steady : From 21 0
  unfolding state mover turn call_at serve_at
  all_steady = (
    (refl, refl, refl),
    (
      (refl, refl, refl),
      (
        (refl, refl, refl),
        (
          (refl, refl, refl),
          (
            (refl, refl, refl),
            (
              (refl, refl, refl),
              (
                (refl, refl, refl),
                (
                  (refl, refl, refl),
                  (
                    (refl, refl, refl),
                    (
                      (refl, refl, refl),
                      (
                        (refl, refl, refl),
                        (
                          (refl, refl, refl),
                          (
                            (refl, refl, refl),
                            (
                              (refl, refl, refl),
                              (
                                (refl, refl, refl),
                                (
                                  (refl, refl, refl),
                                  (
                                    (refl, refl, refl),
                                    (
                                      (refl, refl, refl),
                                      (
                                        (refl, refl, refl),
                                        ((refl, refl, refl), ((refl, refl, refl), tt)),
                                      ),
                                    ),
                                  ),
                                ),
                              ),
                            ),
                          ),
                        ),
                      ),
                    ),
                  ),
                ),
              ),
            ),
          ),
        ),
      ),
    ),
  )

  From-Steady : (count n k : ℕ) → From count n → n ≤ k → k < n + count → Steady k
  From-Steady zero n k a h l = absurd (omega arith)
  From-Steady (suc count) n k a h l = elim (ℕ_discrete n k) [
    | yes e ↦ subst Steady e a.0
    | no e ↦ From-Steady count (n + 1) k a.1 (omega arith) (omega arith)
  ]

  pub steady : (n : ℕ) → n < 21 → Steady n
  steady n h = From-Steady 21 0 n all_steady (omega arith) (omega arith)

  pub state_first : state 0 ≡ begin_call r buffer answer asked t w
  unfolding state
  state_first = refl

  pub state_last : state 21 ≡ finished
  unfolding state
  state_last = refl
