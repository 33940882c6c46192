-- ===== src/Keyboard/Line.antt =====
-- The line editor that the driver implements: a text of at most 255 characters, closed by Enter.
use os_kernel_and_bootloader.Base.{
  ℕ, zero, suc, ◌+◌, ◌-◌, ◌<◌, ◌≡◌, refl, ap, sym, ◌∙◌, List, [], ◌∷◌, ◌++◌, Bool, true, ltb, ◌==◌,
  if◌then◌else◌, arith, length, set, take, take-set, take-set_next, drop_last, drop_last-take,
  length-take,
}
use os_kernel_and_bootloader.Keyboard.{Keyboard, on_backspace, on_enter, on_text, on_char}
use os_kernel_and_bootloader.Keyboard.Bounds.{IsValid}

pub record Editor : Type 0 where
  pub text : List ℕ
  pub closed : Bool

-- One character typed into the editor.
unfoldable pub edit : Editor → ℕ → Editor
edit e c =
    if e.closed
    then e
    else if c == 8
    then record e { text = drop_last e.text }
    else if c == 0
    then e
    else record {
      text = if ltb (length e.text) 255 then e.text ++ c ∷ [] else e.text;
      closed = c == b'\n';
    }

abbrev pub view : Keyboard → Editor
view k = record { text = take k.buf_len k.buffer; closed = k.line_ready }

pub length-view : {k : Keyboard} → IsValid k → length (view k).text ≡ k.buf_len
length-view {k} v = omega (arith, length-take k.buf_len k.buffer)

shorten : (xs : List ℕ) (n : ℕ) → n < length xs → take (n - 1) xs ≡ drop_last (take n xs)
shorten xs zero h = refl
shorten xs (suc n) h =
    let e : suc n - 1 ≡ n = omega arith in
    ap (λ k. take k xs) e ∙ sym (drop_last-take xs n (omega arith))

module _ {k : Keyboard} (v : IsValid k) where
  abbrev text : List ℕ
  text = take k.buf_len k.buffer

  abbrev longer : ℕ → List ℕ
  longer c = if ltb (length text) 255 then text ++ c ∷ [] else text

  view-on_backspace :
      view (on_backspace k)
      ≡ (if k.line_ready then view k else record { text = drop_last text; closed = k.line_ready })
  unfolding on_backspace
  view-on_backspace = ground (arith, shorten k.buffer k.buf_len)

  view-on_text :
      (c : ℕ)
      → view (on_text k c)
        ≡ (if k.line_ready then view k else record { text = longer c; closed = k.line_ready })
  unfolding on_text
  view-on_text c = ground (arith, length-view v, take-set_next k.buffer k.buf_len c)

  view-on_enter :
      view (on_enter k)
      ≡ (if k.line_ready then view k else record { text = longer b'\n'; closed = true })
  unfolding on_enter
  view-on_enter =
      let stored = set k.buffer k.buf_len b'\n' in
      ground (
        arith,
        length-view v,
        take-set_next k.buffer k.buf_len b'\n',
        take-set k.buffer k.buf_len 0,
        take-set stored (k.buf_len + 1) 0,
      )

-- Every character that the interrupt handler translates edits the line in the buffer as the
-- editor does: a character is appended while there is room, Backspace removes the last one,
-- Enter closes the line, and a closed line no longer changes.
pub view-on_char : (c : ℕ) {k : Keyboard} → IsValid k → view (on_char k c) ≡ edit (view k) c
unfolding on_char edit
view-on_char c {k} v = ground (arith, view-on_backspace v, view-on_text v c, view-on_enter v)
