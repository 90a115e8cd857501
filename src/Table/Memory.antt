-- ===== src/Table/Memory.antt =====
-- The nodes of fdtable.c on an explicit heap, and the accesses to them.
use core_partitioning.Base.{
  ℕ, ◌+◌, ◌-◌, ◌%◌, ◌^◌, Bool, true, false, ◌==◌, if◌then◌else◌, ℤ, negsuc,
}

abbrev pub Ptr : Type 0
Ptr = ℕ

abbrev pub null : Ptr
null = 0

abbrev pub header_fd : ℤ
header_fd = negsuc 9  -- -10

abbrev pub tail_fd : ℤ
tail_fd = negsuc 10  -- -11

abbrev pub new_fd : ℤ
new_fd = negsuc 11  -- -12

-- The seven semaphores of a node, by their values.
pub record Semaphores : Type 0 where
  pub sem_thread : ℕ
  pub full : ℕ
  pub full2 : ℕ
  pub empty : ℕ
  pub empty2 : ℕ
  pub mutex : ℕ
  pub mutex2 : ℕ

-- `struct _thread_info`, without its links.
pub record ThreadInfo : Type 0 where
  pub p_thread : ℕ
  pub thr_fd : ℤ
  pub message : Ptr
  pub pid : ℕ
  pub net_or_file : ℕ
  pub sems : Semaphores

-- `live` says which addresses are allocated. What an allocated node holds is kept in three maps:
-- its links, and the fields beside them.
pub record Table : Type 0 where
  pub live : Ptr → Bool
  pub cell : Ptr → ThreadInfo
  pub next : Ptr → Ptr
  pub prev : Ptr → Ptr
  pub header : Ptr
  pub tail : Ptr
  pub thr_num : ℕ  -- unsigned int

pub data Run {ℓ} (A : Type ℓ) : Type ℓ where
  ok : A → Table → Run A
  exit : Run A  -- the process ends, `exit(-1)`
  fault : Run A  -- an access through a pointer that is not allocated
  out_of_fuel : Run A

infixl 5 ◌>>=◌ ◌>>◌
abbrev pub ◌>>=◌ {ℓ κ} :
    {A : Type ℓ} {B : Type κ} → (Table → Run A) → (A → Table → Run B) → Table → Run B
◌>>=◌ m f t = elim (m t) [
  | ok a t' ↦ f a t'
  | exit ↦ exit
  | fault ↦ fault
  | out_of_fuel ↦ out_of_fuel
]

abbrev pub ◌>>◌ {κ} : {B : Type κ} → (Table → Run (Unit {0})) → (Table → Run B) → Table → Run B
m >> k = m >>= λ _. k

abbrev pub pure {ℓ} : {A : Type ℓ} → A → Table → Run A
pure a t = ok a t

abbrev pub update {ℓ} : {A : Type ℓ} → (Ptr → A) → Ptr → A → Ptr → A
update f p a q = if q == p then a else f q

-- `*p`.
unfoldable pub load : Ptr → Table → Run ThreadInfo
load p t = if t.live p then ok (t.cell p) t else fault

-- `p->next`, `p->prev`, and the assignments to them.
unfoldable pub get_next : Ptr → Table → Run Ptr
get_next p t = if t.live p then ok (t.next p) t else fault

unfoldable pub get_prev : Ptr → Table → Run Ptr
get_prev p t = if t.live p then ok (t.prev p) t else fault

unfoldable pub set_next : Ptr → Ptr → Table → Run (Unit {0})
set_next p q t = if t.live p then ok tt (record t { next = update t.next p q }) else fault

unfoldable pub set_prev : Ptr → Ptr → Table → Run (Unit {0})
set_prev p q t = if t.live p then ok tt (record t { prev = update t.prev p q }) else fault

abbrev pub get_header : Table → Run Ptr
get_header t = ok t.header t

-- A new node with its fields set.
abbrev pub alloc : Ptr → ThreadInfo → (next prev : Ptr) → Table → Run (Unit {0})
alloc p n next prev t = ok tt (record t {
  live = update t.live p true;
  cell = update t.cell p n;
  next = update t.next p next;
  prev = update t.prev p prev;
})

unfoldable pub free : Ptr → Table → Run (Unit {0})
free p t = if t.live p then ok tt (record t { live = update t.live p false }) else fault

abbrev pub u32 : ℕ → ℕ
u32 n = n % 2 ^ 32

abbrev pub add_thr_num : Table → Run (Unit {0})
add_thr_num t = ok tt (record t { thr_num = u32 (t.thr_num + 1) })

abbrev pub sub_thr_num : Table → Run (Unit {0})
sub_thr_num t = ok tt (record t { thr_num = u32 (t.thr_num + 2 ^ 32 - 1) })
