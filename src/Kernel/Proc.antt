-- ===== src/Kernel/Proc.antt =====
-- The proc files of simple_proc_ktimer/simple_proc.c and the life of the module: `init_simpleproc`
-- with its steps back on an error, and `exit_simpleproc`.
pub mod Life
use core_partitioning.Base.{
  ℕ, ◌+◌, ℤ, pos, negsuc, Bool, true, false, not, ◌&&◌, ◌||◌, List, [], ◌∷◌, if◌then◌else◌,
}

-- The files below /proc/KU.
pub data Entry : Type 0 where
  user : Entry
  system : Entry
  intr : Entry
  total : Entry
  dynamic : Entry

-- What is there: the directory, the files, the timer, and its memory `ptrmng`. `warnings` counts
-- the calls of `remove_proc_entry` that the kernel complains of: for a name that is not there, or
-- for a directory with files in it.
pub record Proc : Type 0 where
  pub dir : Bool
  pub user : Bool
  pub system : Bool
  pub intr : Bool
  pub total : Bool
  pub dynamic : Bool
  pub ptrmng : Bool
  pub timer : Bool
  pub warnings : ℕ

abbrev pub has : Entry → Proc → Bool
has user p = p.user
has system p = p.system
has intr p = p.intr
has total p = p.total
has dynamic p = p.dynamic

abbrev pub put : Entry → Bool → Proc → Proc
put user b p = record p { user = b }
put system b p = record p { system = b }
put intr b p = record p { intr = b }
put total b p = record p { total = b }
put dynamic b p = record p { dynamic = b }

-- `remove_proc_entry(name, parent)`.
unfoldable pub remove_file : Entry → Proc → Proc
remove_file n p = if has n p then put n false p else record p { warnings = p.warnings + 1 }

unfoldable pub remove_files : List Entry → Proc → Proc
remove_files [] p = p
remove_files (n ∷ ns) p = remove_files ns (remove_file n p)

-- `remove_proc_entry(dirname, NULL)`.
unfoldable pub remove_dir : Proc → Proc
remove_dir p =
    if p.dir && not (p.user || p.system || p.intr || p.total || p.dynamic)
    then record p { dir = false }
    else record p { dir = false; warnings = p.warnings + 1 }

-- Which calls succeed.
pub record Kernel : Type 0 where
  pub mkdir : Bool
  pub create : Entry → Bool
  pub kmalloc : Bool

-- `if (!proc_create(name, ...)) { ... return -1; }`: `undo` are the files that the block removes.
unfoldable pub create :
    Kernel → Entry → (undo : List Entry) → (rest : Proc → ℤ × Proc) → Proc → ℤ × Proc
create k n undo rest p =
    if k.create n then rest (put n true p) else (negsuc 0, remove_dir (remove_files undo p))

-- The memory of the timer, and the timer; -12 is -ENOMEM.
unfoldable pub start_timer : Kernel → Proc → ℤ × Proc
start_timer k p =
    if k.kmalloc then (pos 0, record p { ptrmng = true; timer = true }) else (negsuc 11, p)

unfoldable pub init_simpleproc : Kernel → Proc → ℤ × Proc
init_simpleproc k p =
    if k.mkdir
    then create k user (user ∷ [])
        (create k system (system ∷ user ∷ []) (
          create k intr (intr ∷ system ∷ user ∷ []) (
            create k total (total ∷ intr ∷ system ∷ user ∷ [])
              (create k dynamic (dynamic ∷ total ∷ intr ∷ system ∷ user ∷ []) (start_timer k)))))
        (record p { dir = true })
    else (negsuc 0, remove_dir p)

unfoldable pub exit_simpleproc : Proc → Proc
exit_simpleproc p = remove_dir (
    remove_files (user ∷ system ∷ intr ∷ total ∷ dynamic ∷ [])
      (if p.ptrmng then record p { timer = false; ptrmng = false } else p))
