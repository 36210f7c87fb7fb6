-- ===== src/Channel/Phases.antt =====
-- The first block of Labs/Lab3/src between the parent's lines and the children's, and what a child takes of it.
use mathlib.Core.List.{Sublistᴰ, map}
use mai_os_labs.Prelude.{
  Bool, update_self, length-set, ℕ, zero, suc, ◌<◌, ◌≡◌, ◌∙◌, refl, ap, true, false, List, [], ◌∷◌,
  ◌++◌, arith, length, set, drop, length-append, ◌==◌, length-drop,
}
use mai_os_labs.Channel.{
  Channel, Reader, texts, strncpy_bytes, send_line, take_line, HasNoZero, IsLine, max_line,
}
use mai_os_labs.Channel.Vowels.{
  without_vowels, remove_vowels-without_vowels, set-append, length-remove_vowels,
}

strncpy_text :
    (text rest : List ℕ) → HasNoZero text → strncpy_bytes (length text) (text ++ rest) ≡ text
unfolding strncpy_bytes
strncpy_text [] rest h = refl
strncpy_text (c ∷ text) rest (ne, h) = ground (arith, strncpy_text text rest h)

strncpy_all : (text : List ℕ) → HasNoZero text → strncpy_bytes (length text) text ≡ text
unfolding strncpy_bytes
strncpy_all [] h = refl
strncpy_all (c ∷ text) (ne, h) = ground (arith, strncpy_all text h)

-- What the channel is in the middle of: nothing sent, the last line taken, or the last line waiting.
-- What stands in the file is a part of the lines without their vowels, in their order.
pub data Phase (s : Channel) : Type 0 where
  unused : s.size ≡ 0 → s.sent ≡ [] → texts s.written ≡ [] → Phase s
  idle :
      (line : List ℕ) (lines parts : List (List ℕ))
      → s.size ≡ 0
      → s.sent ≡ line ∷ lines
      → texts s.written ≡ without_vowels line ∷ parts
      → Sublistᴰ parts (map without_vowels lines)
      → Phase s
  waiting :
      (line rest : List ℕ) (lines : List (List ℕ))
      → IsLine line
      → s.size ≡ length line
      → s.data_bytes ≡ line ++ rest
      → s.sent ≡ line ∷ lines
      → Sublistᴰ (texts s.written) (map without_vowels lines)
      → Phase s

-- A child's array has its length, and a child that has ended has seen the end.
pub record IsReader (done : Bool) (size : ℕ) (r : Reader) : Type 0 where
  pub room : length r.buffer ≡ max_line
  pub at_end : r.exited ≡ true → (done ≡ true) × (size ≡ 0)

pub record Inv (s : Channel) : Type 0 where
  pub phase : Phase s
  pub reader : (b : Bool) → IsReader s.done s.size (s.children b)

pub sent_so_far : (s : Channel) → Phase s → Sublistᴰ (texts s.written) (map without_vowels s.sent)
sent_so_far s (unused z e e') = rw (e, e') Sublistᴰ.slnil
sent_so_far s (idle line lines parts z e e' p) = rw (e, e') (Sublistᴰ.cons-cons refl p)
sent_so_far s (waiting line rest lines l z d e p) = rw e (Sublistᴰ.cons p)

pub send-Phase : (s : Channel) (line : List ℕ) → IsLine line → Phase s → Phase (send_line line s)
unfolding send_line
send-Phase s line l p =
    waiting line (drop (length line) s.data_bytes) s.sent l refl
      (ap (λ k. k ++ drop (length line) s.data_bytes) (strncpy_all line l.text)) refl
      (sent_so_far s p)

drop-cons : (n : ℕ) (l : List ℕ) → n < length l → (x : ℕ) × (rest : List ℕ) × (drop n l ≡ x ∷ rest)
drop-cons n [] h = absurd (omega arith)
drop-cons zero (x ∷ l) h = (x, l, refl)
drop-cons (suc n) (x ∷ l) h = drop-cons n l (omega arith)

-- The child's array after `strncpy` and the zero byte.
filled_line :
    (line rest buffer : List ℕ)
    → IsLine line
    → length buffer ≡ max_line
    → (behind : List ℕ) × (set
          (strncpy_bytes (length line) (line ++ rest) ++ drop (length line) buffer)
          (length line)
          0
        ≡ line ++ 0 ∷ behind)
      × (length (line ++ 0 ∷ behind) ≡ max_line)
filled_line line rest buffer l room =
    let (x, behind, e) = drop-cons (length line) buffer (omega (arith, room, l.short)) in
    (
      behind,
      rw (strncpy_text line rest l.text, e) (set-append line x 0 behind),
      omega (
        arith,
        room,
        length-append line (0 ∷ behind),
        length-drop (length line) buffer,
        ap length e,
        l.short,
      ),
    )

pub take_waiting :
    (b : Bool) (s : Channel) (line rest : List ℕ)
    → IsLine line
    → length (s.children b).buffer ≡ max_line
    → s.size ≡ length line
    → s.data_bytes ≡ line ++ rest
    → (texts (take_line b s).written ≡ without_vowels line ∷ texts s.written)
      × (length ((take_line b s).children b).buffer ≡ max_line)
unfolding take_line
take_waiting b s line rest l room e d =
    let (behind, filled, len) = filled_line line rest (s.children b).buffer l room in
    let some_byte : (length line == 0) ≡ false = let pos = l.some_byte in ground arith in
    rw (e, d, filled, some_byte)
      (
        ap (λ k. k ∷ texts s.written) (remove_vowels-without_vowels line behind l.text),
        ap (λ r. length r.buffer) (update_self s.children b _)
            ∙ length-remove_vowels (line ++ 0 ∷ behind)
            ∙ len,
      )

-- The other child has taken the line.
pub take_nothing :
    (b : Bool) (s : Channel)
    → s.size ≡ 0
    → ((take_line b s).written ≡ s.written)
      × (length ((take_line b s).children b).buffer ≡ length (s.children b).buffer)
unfolding take_line strncpy_bytes
take_nothing b s z = rw z (
  refl,
  ap (λ r. length r.buffer) (update_self s.children b _)
      ∙ length-remove_vowels (set (s.children b).buffer 0 0)
      ∙ length-set (s.children b).buffer 0 0,
)
