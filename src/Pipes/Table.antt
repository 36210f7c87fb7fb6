-- ===== src/Pipes/Table.antt =====
-- The open descriptors of a process of Labs/Lab1/src/parent.c, and what `pipe`, `close` and `dup2` do to
-- them.
use mai_os_labs.Prelude.{ℕ, ◌≡◌, ◌≢◌, Bool, Option, none, some, ◌==◌, if◌then◌else◌, arith}

pub data End : Type 0 where
  other : End
  reads : Bool → End
  writes : Bool → End

-- What each descriptor stands for.
abbrev pub Table : Type 0
Table = ℕ → Option End

unfoldable pub close : ℕ → Table → Table
close fd t x = if x == fd then none else t x

unfoldable pub dup2 : ℕ → ℕ → Table → Table
dup2 old new t x = if x == new then t old else t x

-- The two descriptors of a new pipe, that for reading first.
unfoldable pub open_pipe : Bool → ℕ × ℕ → Table → Table
open_pipe b (r, w) t x = if x == r then some (reads b) else if x == w then some (writes b) else t x

-- No descriptor stands for `e`.
abbrev pub Lacks : End → Table → Type 0
Lacks e t = (x : ℕ) → t x ≢ some e

-- Just `fd` may stand for `e`.
abbrev pub LacksBut : ℕ → End → Table → Type 0
LacksBut fd e t = (x : ℕ) → t x ≡ some e → x ≡ fd

-- Exit closes every descriptor.
abbrev pub no_descriptors : Table
no_descriptors x = none

pub close-Lacks : (fd : ℕ) (e : End) (t : Table) → Lacks e t → Lacks e (close fd t)
unfolding close
close-Lacks fd e t l x p = ground (arith, l x)

pub close-LacksBut :
    (fd closed : ℕ) (e : End) (t : Table) → LacksBut fd e t → LacksBut fd e (close closed t)
unfolding close
close-LacksBut fd closed e t l x p = ground (arith, l x)

-- The one descriptor that stood for `e` is closed.
pub close_last : (fd : ℕ) (e : End) (t : Table) → LacksBut fd e t → Lacks e (close fd t)
unfolding close
close_last fd e t l x p = ground (arith, l x)

pub dup2-Lacks : (old new : ℕ) (e : End) (t : Table) → Lacks e t → Lacks e (dup2 old new t)
unfolding dup2
dup2-Lacks old new e t l x p = ground (arith, l x, l old)

pub dup2-LacksBut :
    (fd old new : ℕ) (e : End) (t : Table)
    → old ≢ fd
    → LacksBut fd e t
    → LacksBut fd e (dup2 old new t)
unfolding dup2
dup2-LacksBut fd old new e t ne l x p = ground (arith, l x, l old, ne)

pub open_pipe-Lacks :
    (b : Bool) (r w : ℕ) (e : End) (t : Table)
    → reads b ≢ e
    → writes b ≢ e
    → Lacks e t
    → Lacks e (open_pipe b (r, w) t)
unfolding open_pipe
open_pipe-Lacks b r w e t nr nw l x p = ground (arith, l x, nr, nw)

pub open_pipe-LacksBut :
    (b : Bool) (r w : ℕ) (t : Table)
    → Lacks (writes b) t
    → LacksBut w (writes b) (open_pipe b (r, w) t)
unfolding open_pipe
open_pipe-LacksBut b r w t l x p = ground (arith, l x)

pub open_pipe-keeps :
    (b : Bool) (r w fd : ℕ) (e : End) (t : Table)
    → reads b ≢ e
    → writes b ≢ e
    → LacksBut fd e t
    → LacksBut fd e (open_pipe b (r, w) t)
unfolding open_pipe
open_pipe-keeps b r w fd e t nr nw l x p = ground (arith, l x, nr, nw)
