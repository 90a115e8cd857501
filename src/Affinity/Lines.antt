-- ===== src/Affinity/Lines.antt =====
-- Files of one number to a line: the proc files that show_stat_user and its companions of
-- simple_proc_ktimer/simple_proc.c print, those of `show_stat_dynamic` with CROSS, PER and APP, and
-- the loops of affinity.c that read them.
pub mod RoundTrip
use core_partitioning.Base.{ℕ, zero, suc, List, [], ◌∷◌, map}
use core_partitioning.Affinity.{newline, print, fgets, atoi}
use core_partitioning.Kernel.Sockets.{Sockets, Socket, Pair}
use core_partitioning.Kernel.App.{App}

abbrev pub lines : List ℕ → List ℕ
lines [] = []
lines (n ∷ ns) = print n (newline ∷ lines ns)

-- `show_stat_user` and its companions; `p` is the array of values, `online` the cores that
-- `for_each_online_cpu` goes over.
unfoldable pub show_stat : (p : ℕ → ℕ) → (online : List ℕ) → List ℕ
show_stat p online = lines (map p online)

-- The four lines of a socket, and the six with APP.
abbrev pub socket_lines : Socket → List ℕ → List ℕ
socket_lines s rest = s.net_start ∷ s.net_end ∷ s.blk_start ∷ s.blk_end ∷ rest

abbrev pub app_lines : core_partitioning.Kernel.App.Socket → List ℕ → List ℕ
app_lines s rest =
    s.net_start ∷ s.net_end ∷ s.app_start ∷ s.app_end ∷ s.blk_start ∷ s.blk_end ∷ rest

unfoldable pub show_stat_cross : Sockets → List ℕ
show_stat_cross s = lines (s.socket_number ∷ socket_lines s.per.low (socket_lines s.per.high []))

unfoldable pub show_stat_per : Sockets → List ℕ
show_stat_per s = lines (socket_lines s.per.low (socket_lines s.per.high []))

unfoldable pub show_stat_app : App → List ℕ
show_stat_app s = lines (app_lines s.low (app_lines s.high []))

-- `rounds` times `fgets(buffer, most + 1, file)` and `atoi(buffer)`.
unfoldable pub read_lines : (most rounds : ℕ) → List ℕ → List ℕ
read_lines most zero file = []
read_lines most (suc rounds) file =
    let line = fgets most file in atoi line.0 ∷ read_lines most rounds line.1
