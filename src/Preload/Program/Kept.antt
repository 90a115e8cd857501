-- ===== src/Preload/Program/Kept.antt =====
-- The functions of ld_preload.c that may make an entry, on a table where each entry has a thread and no call
-- is under way.
use core_partitioning.Base.{
  ℕ, ◌<◌, ◌≡◌, ◌⊎◌, inl, inr, refl, sym, ◌∙◌, ap, ℤ, is_negative, Bool, true, false, ◌!=◌, ◌||◌,
  Returns, List, [], ◌∷◌, ◌++◌, arith, All, All-both, All-mono, ne→==, ◌==◌, ◌==ℤ◌, Bool-cases, ltb,
  ltb→lt,
}
use core_partitioning.Table.{
  update, Ptr, null, ThreadInfo, Table, ok, fresh_sems, goes_on, get_by_fd_all, get_number, ◌>>=◌,
}
use core_partitioning.Table.Lookup.{first, visible, get_by_fd_all-first}
use core_partitioning.Preload.Request.{Call, Originals}
use core_partitioning.Preload.Wrapper.{Process, directly}
use core_partitioning.Preload.Wrapper.Same.{Documented, Same}
use core_partitioning.Preload.Register.{
  with_entry, EntryEnv, maxthread, register, enter, call_keeping, below_three, open_path, openat,
  socket,
}
use core_partitioning.Preload.Register.Entry.{Supplied, Entered, register-Entered, register_refuses}
use core_partitioning.Preload.Program.Quiet.{Quiet, Kept, unchanged-Quiet}

-- A full table takes no entry.
register_full :
    (e : EntryEnv) (t : Table) (fuel kind : ℕ) (ret : ℤ)
    → get_by_fd_all fuel ret t ≡ ok null t
    → is_negative ret ≡ false
    → ltb t.thr_num maxthread ≡ false
    → register e fuel kind true ret t ≡ ok null t
unfolding register get_number
register_full e t fuel kind ret found neg full = rw (found, ◌>>=◌, neg, full)

entered-Quiet :
    {W : Type 0} (s s' : Process W) (q : Quiet s) (p : Ptr) (kind : ℕ) (ret : ℤ)
    → s.table.thr_num < maxthread
    → Entered s.table s'.table q.xs p kind ret
    → s'.serving ≡ update s.serving p true
    → Quiet s'
entered-Quiet s s' q p kind ret room h e = record {
  xs = p ∷ q.xs;
  table = h.table;
  sems = (
    h.sems,
    All-both (λ x. (s.table.cell x).sems ≡ fresh_sems) (λ x. s'.table.cell x ≡ s.table.cell x) _
        q.xs (λ x a b. ap (λ c. c.sems) b ∙ a) q.sems h.others,
  );
  serving = rw e (
    ground arith,
    All-mono (λ x. s.serving x ≡ true) _ q.xs (λ x k. ground (arith, k)) q.serving,
  );
  few = omega (arith, room, q.table.counted);
}

unwanted :
    (e : EntryEnv) (t : Table) (fuel kind : ℕ) (ret : ℤ)
    → get_by_fd_all fuel ret t ≡ ok null t
    → is_negative ret ≡ false
    → register e fuel kind false ret t ≡ ok null t
unfolding register get_number
unwanted e t fuel kind ret found neg = rw (found, ◌>>=◌, neg)

-- The process after the original call and `register`. `s'` has the table and the threads of `s`.
abbrev Left : {W : Type 0} → EntryEnv → (s s' : Process W) → Ptr → Table → Type 0
Left e s s' p t' = Quiet (with_entry e s' p t')

with_null :
    {W : Type 0} (e : EntryEnv) (s s' : Process W)
    → Quiet s
    → s'.serving ≡ s.serving
    → Left e s s' null s.table
with_null e s s' q h = unchanged-Quiet s _ q refl h

-- Whatever the look-up finds, however full the table is and whether an entry is wanted or not, the
-- process is as it should be after `register`.
register-Left :
    {W : Type 0} (e : EntryEnv) (s s' : Process W) (fuel kind : ℕ) (wanted : Bool) (ret : ℤ)
    → (q : Quiet s) → Supplied e s.table
    → maxthread < fuel
    → s'.serving ≡ s.serving
    → (p : Ptr) × (t' : Table) × (register e fuel kind wanted ret s.table ≡ ok p t')
      × Left e s s' p t'
register-Left e s s' fuel kind wanted ret q supplied enough same =
    let t = s.table in
    let p = first t.cell (λ n. n.thr_fd ==ℤ ret) (visible t.cell q.xs) in
    let found : get_by_fd_all fuel ret t ≡ ok p t =
      get_by_fd_all-first t q.xs q.table fuel (omega (arith, q.few, enough)) ret in
    elim (Bool-cases (p != null || is_negative ret)) [
      | inl e' ↦
          (null, t, register_refuses e t fuel kind wanted ret p found e', with_null e s s' q same)
      | inr e' ↦ make wanted (found ∙ ap (λ p'. ok p' t) (ground arith)) (ground arith)
    ]
  where
    made :
        (t' : Table)
        → s.table.thr_num < maxthread
        → Entered s.table t' q.xs e.add_env.node kind ret
        → Left e s s' e.add_env.node t'
    made t' room entered = rw (ne→== e.add_env.node null supplied.node) (
        entered-Quiet s _ q e.add_env.node kind ret room entered (rw (same, supplied.created) refl))

    make :
        (wanted : Bool)
        → get_by_fd_all fuel ret s.table ≡ ok null s.table
        → is_negative ret ≡ false
        → (p : Ptr) × (t' : Table) × (register e fuel kind wanted ret s.table ≡ ok p t')
          × Left e s s' p t'
    make false out neg =
        (null, s.table, unwanted e s.table fuel kind ret out neg, with_null e s s' q same)
    make true out neg = elim (Bool-cases (ltb s.table.thr_num maxthread)) [
      | inr full ↦ (
        null,
        s.table,
        register_full e s.table fuel kind ret out neg full,
        with_null e s s' q same,
      )
      | inl h ↦
          let room = ltb→lt s.table.thr_num maxthread h in
          let (t', done, entered) =
            register-Entered e s.table q.xs q.table supplied fuel kind ret out neg room in
          (e.add_env.node, t', done, made t' room entered)
    ]

module _ {W : Type 0} (e : EntryEnv) (fuel : ℕ) (enough : maxthread < fuel) (s : Process W)
    (q : Quiet s) (supplied : Supplied e s.table) where
  -- `s'` is the process after the original call.
  enter-Kept :
      (f : Call W) (kind : ℕ) (wanted : Bool) (ret : ℤ) (s' : Process W)
      → s'.table ≡ s.table
      → s'.serving ≡ s.serving
      → Same f s (ret, s')
      → Returns (Kept f s) (enter e fuel kind wanted ret s')
  unfolding enter
  enter-Kept f kind wanted ret s' same alive g =
      let (p, t', done, q') = register-Left e s s' fuel kind wanted ret q supplied enough alive in
      rw (same, done)
        (elim (Bool-cases (p == null)) [
          | inl n ↦ (rw n (record { value = g.value; errno = g.errno; world = g.world }), q')
          | inr n ↦ (rw n (record { value = g.value; errno = g.errno; world = g.world }), q')
        ])

  keeping-Same : (f : Call W) → Documented f → Same f s ((f 0 s.world).value, call_keeping f s)
  keeping-Same f d = record {
    value = sym (d.value s.errno s.world);
    errno = sym (d.errno s.errno s.world);
    world = sym (d.world s.errno s.world);
  }

  module _ (o : Originals W) where
    pub open-Kept :
        (path : ℕ) (flags : ℤ) (mode : ℕ)
        → Documented (o.open_file path flags mode)
        → Returns (Kept (o.open_file path flags mode) s) (open_path o e fuel path flags mode s)
    unfolding open_path
    open-Kept path flags mode d =
        let f = o.open_file path flags mode in
        elim (Bool-cases (below_three (f 0 s.world).value)) [
          | inl h ↦ rw h (keeping-Same f d, unchanged-Quiet s _ q refl refl)
          | inr h ↦ rw h (enter-Kept f 1 true _ (call_keeping f s) refl refl (keeping-Same f d))
        ]

    pub openat-Kept :
        (dirfd : ℤ) (path : ℕ) (flags : ℤ) (mode : ℕ)
        → Documented (o.openat dirfd path flags mode)
        → Returns
            (Kept (o.openat dirfd path flags mode) s)
            (openat o e fuel dirfd path flags mode s)
    unfolding openat
    openat-Kept dirfd path flags mode d =
        let f = o.openat dirfd path flags mode in
        enter-Kept f 1 _ _ (call_keeping f s) refl refl (keeping-Same f d)

    pub socket-Kept :
        (domain kind protocol : ℤ)
        → Returns (Kept (o.socket domain kind protocol) s) (socket o e fuel domain kind protocol s)
    unfolding socket
    socket-Kept domain kind protocol =
        enter-Kept (o.socket domain kind protocol) 0 true _
          (directly (o.socket domain kind protocol) s.errno s).1 refl refl
          (record { value = refl; errno = refl; world = refl })

-- The first entry with the descriptor, if the look-up gets to one.
pub record Hit (c : Ptr → ThreadInfo) (fd : ℤ) (xs : List Ptr) : Type 0 where
  pub ys : List Ptr
  pub x : Ptr
  pub zs : List Ptr
  pub split : xs ≡ ys ++ x ∷ zs
  pub shown : All (λ y. goes_on (c y).thr_fd ≡ true) ys
  pub missed : All (λ y. ((c y).thr_fd ==ℤ fd) ≡ false) ys
  pub going : goes_on (c x).thr_fd ≡ true
  pub hit : ((c x).thr_fd ==ℤ fd) ≡ true

pub first-Hit :
    (c : Ptr → ThreadInfo) (fd : ℤ) (xs : List Ptr)
    → (first c (λ n. n.thr_fd ==ℤ fd) (visible c xs) ≡ null) ⊎ Hit c fd xs
unfolding first visible
first-Hit c fd [] = inl refl
first-Hit c fd (x ∷ xs) = elim (Bool-cases (goes_on (c x).thr_fd)) [
  | inr h ↦ inl (rw h refl)
  | inl h ↦ elim (Bool-cases ((c x).thr_fd ==ℤ fd)) [
    | inl k ↦ inr (record {
      ys = [];
      x = x;
      zs = xs;
      split = refl;
      shown = tt;
      missed = tt;
      going = h;
      hit = k;
    })
    | inr k ↦ elim (first-Hit c fd xs) [
      | inl out ↦ inl (rw (h, first, k) out)
      | inr r ↦ inr (record {
        ys = x ∷ r.ys;
        x = r.x;
        zs = r.zs;
        split = ap (λ l. x ∷ l) r.split;
        shown = (h, r.shown);
        missed = (k, r.missed);
        going = r.going;
        hit = r.hit;
      })
    ]
  ]
]
