-- ===== src/Print/Names.antt =====
-- What a reader finds in the buffer that `type_iton` of print.c has written, and when the name does not
-- fit it.
use core_partitioning.Base.{
  ℕ, ◌≤◌, ◌≡◌, ◌≢◌, refl, ap, Bool, true, false, Option, none, some, List, [], ◌∷◌, ◌++◌, arith,
  length, length-append, All, ltb, ltb→lt, sym, ◌∙◌, ◌!=◌, ◌==◌, ◌&&◌, if◌then◌else◌, Returns,
  ne→==,
}
use Prim.Native.String.{String}
use mathlib.Core.List.{append_assoc}
use core_partitioning.Print.{
  RequestType, codes, memcpy, name_into, type_iton, type_open, type_fopen, type_socket, type_bind,
  type_listen, type_accept, type_connect, type_send, type_recv, type_setsockopt, type_read,
  type_write, type_poll, type_ppoll, type_epoll_wait, type_epoll_create, type_epoll_ctl,
  type_socketpair, type_select, type_sendto, type_recvfrom, type_sendmsg, type_recvmsg,
  type_shutdown, type_getsockname, type_getpeername, type_getsockopt, type_openat, type_openat64,
  type_open64, type_lseek, type_lseek64, type_stat, type_stat64, type_close,
}

-- The characters up to the first zero, as `%s` prints them.
unfoldable pub c_string : List ℕ → List ℕ
c_string [] = []
c_string (c ∷ cs) = if c == 0 then [] else c ∷ c_string cs

-- The request types that have a case in the `switch`.
abbrev pub is_named : RequestType → Bool
is_named type_epoll_wait = false
is_named type_epoll_create = false
is_named type_epoll_ctl = false
is_named type_socketpair = false
is_named type_getpeername = false
is_named _ = true

-- Whose name, with the zero, is longer than the buffers of ipc.c.
abbrev pub is_long : RequestType → Bool
is_long type_setsockopt = true
is_long type_getsockopt = true
is_long type_getsockname = true
is_long _ = false

abbrev pub is_none : {A : Type 0} → Option A → Bool
is_none none = true
is_none (some a) = false

abbrev name : RequestType → String
name type_open = "OPEN"
name type_socket = "SOCKET"
name type_bind = "BIND"
name type_listen = "LISTEN"
name type_accept = "ACCEPT"
name type_connect = "CONNECT"
name type_send = "SEND"
name type_recv = "RECV"
name type_setsockopt = "SETSOCKOPT"
name type_getsockopt = "GETSOCKOPT"
name type_read = "READ"
name type_write = "WRITE"
name type_close = "CLOSE"
name type_poll = "POLL"
name type_ppoll = "PPOLL"
name type_select = "SELECT"
name type_sendto = "SENDTO"
name type_recvfrom = "RECVFROM"
name type_sendmsg = "SENDMSG"
name type_recvmsg = "RECVMSG"
name type_shutdown = "SHUTDOWN"
name type_getsockname = "GETSOCKNAME"
name type_open64 = "OPEN64"
name type_openat = "OPENAT"
name type_openat64 = "OPENAT64"
name type_stat = "STAT"
name type_stat64 = "STAT64"
name type_lseek = "LSEEK"
name type_lseek64 = "LSEEK64"
name type_fopen = "FOPEN"
name _ = ""

abbrev same_text : List ℕ → List ℕ → Bool
same_text [] [] = true
same_text (a ∷ as') (b ∷ bs) = (a == b) && same_text as' bs
same_text _ _ = false

abbrev named : List RequestType
named =
    type_open ∷ type_socket ∷ type_bind ∷ type_listen ∷ type_accept ∷ type_connect ∷ type_send
    ∷ type_recv ∷ type_setsockopt ∷ type_getsockopt ∷ type_read ∷ type_write ∷ type_close
    ∷ type_poll ∷ type_ppoll ∷ type_select ∷ type_sendto ∷ type_recvfrom ∷ type_sendmsg
    ∷ type_recvmsg ∷ type_shutdown ∷ type_getsockname ∷ type_open64 ∷ type_openat ∷ type_openat64
    ∷ type_stat ∷ type_stat64 ∷ type_lseek ∷ type_lseek64 ∷ type_fopen ∷ []

abbrev decode : List RequestType → List ℕ → Option RequestType
decode [] text = none
decode (r ∷ rs) text = if same_text (codes (name r)) text then some r else decode rs text

decode-name : (r : RequestType) → is_named r ≡ true → decode named (codes (name r)) ≡ some r
decode-name type_open h = refl
decode-name type_socket h = refl
decode-name type_bind h = refl
decode-name type_listen h = refl
decode-name type_accept h = refl
decode-name type_connect h = refl
decode-name type_send h = refl
decode-name type_recv h = refl
decode-name type_setsockopt h = refl
decode-name type_getsockopt h = refl
decode-name type_read h = refl
decode-name type_write h = refl
decode-name type_close h = refl
decode-name type_poll h = refl
decode-name type_ppoll h = refl
decode-name type_select h = refl
decode-name type_sendto h = refl
decode-name type_recvfrom h = refl
decode-name type_sendmsg h = refl
decode-name type_recvmsg h = refl
decode-name type_shutdown h = refl
decode-name type_getsockname h = refl
decode-name type_open64 h = refl
decode-name type_openat h = refl
decode-name type_openat64 h = refl
decode-name type_stat h = refl
decode-name type_stat64 h = refl
decode-name type_lseek h = refl
decode-name type_lseek64 h = refl
decode-name type_fopen h = refl
decode-name _ h = cc

memcpy-fits :
    (str bytes : List ℕ)
    → length bytes ≤ length str
    → (rest : List ℕ) × (memcpy str bytes ≡ some (bytes ++ rest))
unfolding memcpy
memcpy-fits str [] h = (str, refl)
memcpy-fits [] (b ∷ bs) h = absurd (omega arith)
memcpy-fits (c ∷ cs) (b ∷ bs) h =
    let (rest, e) = memcpy-fits cs bs (omega arith) in (rest, rw e refl)

memcpy_overflow :
    (str bytes : List ℕ) → is_none (memcpy str bytes) ≡ ltb (length str) (length bytes)
unfolding memcpy
memcpy_overflow str [] = ground arith
memcpy_overflow [] (b ∷ bs) = ground arith
memcpy_overflow (c ∷ cs) (b ∷ bs) = ground (arith, memcpy_overflow cs bs)

c_string-zero : (text rest : List ℕ) → All (λ c. c ≢ 0) text → c_string (text ++ 0 ∷ rest) ≡ text
unfolding c_string
c_string-zero [] rest h = refl
c_string-zero (c ∷ cs) rest h = rw (ne→== c 0 h.0, c_string-zero cs rest h.1) refl

abbrev nonzero : List ℕ → Bool
nonzero [] = true
nonzero (c ∷ cs) = (c != 0) && nonzero cs

nonzero-All : (text : List ℕ) → nonzero text ≡ true → All (λ c. c ≢ 0) text
nonzero-All [] h = tt
nonzero-All (c ∷ cs) h = (ground arith, nonzero-All cs (ground arith))

written :
    (text : String) (str : List ℕ)
    → nonzero (codes text) ≡ true
    → ltb (length (codes text)) 12 ≡ true
    → 12 ≤ length str
    → Returns (λ s. c_string s ≡ codes text) (name_into text str)
written text str plain short h =
    let (rest, e) =
      memcpy-fits str (codes text ++ 0 ∷ []) (
        omega
          (arith, length-append (codes text) (0 ∷ []), ltb→lt (length (codes text)) 12 short)) in
    rw (e, append_assoc (codes text) (0 ∷ []) rest)
      (c_string-zero (codes text) rest (nonzero-All (codes text) plain))

type_iton-name :
    (r : RequestType) (str : List ℕ)
    → 12 ≤ length str
    → is_named r ≡ true
    → Returns (λ s. c_string s ≡ codes (name r)) (type_iton r str)
unfolding type_iton
type_iton-name type_open str h e = written "OPEN" str refl refl h
type_iton-name type_socket str h e = written "SOCKET" str refl refl h
type_iton-name type_bind str h e = written "BIND" str refl refl h
type_iton-name type_listen str h e = written "LISTEN" str refl refl h
type_iton-name type_accept str h e = written "ACCEPT" str refl refl h
type_iton-name type_connect str h e = written "CONNECT" str refl refl h
type_iton-name type_send str h e = written "SEND" str refl refl h
type_iton-name type_recv str h e = written "RECV" str refl refl h
type_iton-name type_setsockopt str h e = written "SETSOCKOPT" str refl refl h
type_iton-name type_getsockopt str h e = written "GETSOCKOPT" str refl refl h
type_iton-name type_read str h e = written "READ" str refl refl h
type_iton-name type_write str h e = written "WRITE" str refl refl h
type_iton-name type_close str h e = written "CLOSE" str refl refl h
type_iton-name type_poll str h e = written "POLL" str refl refl h
type_iton-name type_ppoll str h e = written "PPOLL" str refl refl h
type_iton-name type_select str h e = written "SELECT" str refl refl h
type_iton-name type_sendto str h e = written "SENDTO" str refl refl h
type_iton-name type_recvfrom str h e = written "RECVFROM" str refl refl h
type_iton-name type_sendmsg str h e = written "SENDMSG" str refl refl h
type_iton-name type_recvmsg str h e = written "RECVMSG" str refl refl h
type_iton-name type_shutdown str h e = written "SHUTDOWN" str refl refl h
type_iton-name type_getsockname str h e = written "GETSOCKNAME" str refl refl h
type_iton-name type_open64 str h e = written "OPEN64" str refl refl h
type_iton-name type_openat str h e = written "OPENAT" str refl refl h
type_iton-name type_openat64 str h e = written "OPENAT64" str refl refl h
type_iton-name type_stat str h e = written "STAT" str refl refl h
type_iton-name type_stat64 str h e = written "STAT64" str refl refl h
type_iton-name type_lseek str h e = written "LSEEK" str refl refl h
type_iton-name type_lseek64 str h e = written "LSEEK64" str refl refl h
type_iton-name type_fopen str h e = written "FOPEN" str refl refl h
type_iton-name _ str h e = cc

Returns-some {ℓ} :
    {A : Type ℓ} (P : A → Type 0) (m : Option A) (a : A) → Returns P m → m ≡ some a → P a
Returns-some P m a h e = rw e at h

some_inj : {A : Type 0} {a b : A} → some a ≡ some b → a ≡ b
some_inj e = cc

-- In buffers of twelve bytes or more the names that `type_iton` writes tell the request types with a case
-- of their own apart: types with the same name are the same.
pub type_iton-distinct :
    (r q : RequestType) (str str' s s' : List ℕ)
    → is_named r ≡ true
    → is_named q ≡ true
    → 12 ≤ length str
    → 12 ≤ length str'
    → type_iton r str ≡ some s
    → type_iton q str' ≡ some s'
    → c_string s ≡ c_string s'
    → r ≡ q
type_iton-distinct r q str str' s s' hr hq lr lq er eq same =
    let nr = Returns-some _ (type_iton r str) s (type_iton-name r str lr hr) er in
    let nq = Returns-some _ (type_iton q str') s' (type_iton-name q str' lq hq) eq in
    some_inj (sym (decode-name r hr) ∙ ap (decode named) (sym nr ∙ same ∙ nq) ∙ decode-name q hq)

overflows :
    (text : String) (str : List ℕ)
    → length str ≡ 10
    → is_none (name_into text str) ≡ ltb 10 (length (codes text ++ 0 ∷ []))
overflows text str h =
    memcpy_overflow str (codes text ++ 0 ∷ []) ∙ ap (λ n. ltb n (length (codes text ++ 0 ∷ []))) h

-- In a buffer of ten bytes, as the functions of ipc.c have it, `type_iton` writes past the end for exactly
-- three request types: SETSOCKOPT, GETSOCKOPT and GETSOCKNAME.
pub type_iton_overflow :
    (r : RequestType) (str : List ℕ) → length str ≡ 10 → is_none (type_iton r str) ≡ is_long r
unfolding type_iton
type_iton_overflow type_open str h = overflows "OPEN" str h
type_iton_overflow type_socket str h = overflows "SOCKET" str h
type_iton_overflow type_bind str h = overflows "BIND" str h
type_iton_overflow type_listen str h = overflows "LISTEN" str h
type_iton_overflow type_accept str h = overflows "ACCEPT" str h
type_iton_overflow type_connect str h = overflows "CONNECT" str h
type_iton_overflow type_send str h = overflows "SEND" str h
type_iton_overflow type_recv str h = overflows "RECV" str h
type_iton_overflow type_setsockopt str h = overflows "SETSOCKOPT" str h
type_iton_overflow type_getsockopt str h = overflows "GETSOCKOPT" str h
type_iton_overflow type_read str h = overflows "READ" str h
type_iton_overflow type_write str h = overflows "WRITE" str h
type_iton_overflow type_close str h = overflows "CLOSE" str h
type_iton_overflow type_poll str h = overflows "POLL" str h
type_iton_overflow type_ppoll str h = overflows "PPOLL" str h
type_iton_overflow type_select str h = overflows "SELECT" str h
type_iton_overflow type_sendto str h = overflows "SENDTO" str h
type_iton_overflow type_recvfrom str h = overflows "RECVFROM" str h
type_iton_overflow type_sendmsg str h = overflows "SENDMSG" str h
type_iton_overflow type_recvmsg str h = overflows "RECVMSG" str h
type_iton_overflow type_shutdown str h = overflows "SHUTDOWN" str h
type_iton_overflow type_getsockname str h = overflows "GETSOCKNAME" str h
type_iton_overflow type_open64 str h = overflows "OPEN64" str h
type_iton_overflow type_openat str h = overflows "OPENAT" str h
type_iton_overflow type_openat64 str h = overflows "OPENAT64" str h
type_iton_overflow type_stat str h = overflows "STAT" str h
type_iton_overflow type_stat64 str h = overflows "STAT64" str h
type_iton_overflow type_lseek str h = overflows "LSEEK" str h
type_iton_overflow type_lseek64 str h = overflows "LSEEK64" str h
type_iton_overflow type_fopen str h = overflows "FOPEN" str h
type_iton_overflow _ str h = refl
