-- ===== src/Keyboard/Session.antt =====
-- A line that is typed is the line that `keyboard_readline` returns.
use os_kernel_and_bootloader.Base.{
  ℕ, ◌+◌, ◌-◌, ◌<◌, ◌≡◌, ◌≢◌, refl, ap, ap₂, sym, ◌∙◌, List, [], ◌∷◌, ◌++◌, map, Bool, true, false,
  some, ◌==◌, ==_iff, arith, length, take, bit_and, every, every_holds, min, take-take, length-map,
  append_assoc, length-append,
}
use os_kernel_and_bootloader.Keyboard.{
  Keyboard, translate_scancode, on_backspace, on_enter, on_text, on_char, on_press, on_irq,
  wait_line, Reply, take_line, readline,
}
use os_kernel_and_bootloader.Keyboard.Bounds.{IsValid, on_irq-IsValid}
use os_kernel_and_bootloader.Keyboard.Line.{view, edit, length-view, view-on_char}

make_table : every 128 (λ sc. bit_and sc 0x80 == 0) ≡ true
unfolding every
make_table = refl

-- A make code has its highest bit clear.
make_code : (sc : ℕ) → sc < 128 → bit_and sc 0x80 ≡ 0
make_code sc h = (==_iff _ 0).0 (every_holds 128 _ make_table sc h)

-- A key that is no modifier and gives a character other than zero, Backspace and Enter.
pub record IsPlain (shift caps : Bool) (sc : ℕ) : Type 0 where
  pub make : sc < 128
  pub not_left_shift : sc ≢ 0x2A
  pub not_right_shift : sc ≢ 0x36
  pub not_ctrl : sc ≢ 0x1D
  pub not_alt : sc ≢ 0x38
  pub not_caps : sc ≢ 0x3A
  pub shown : translate_scancode shift caps sc ≢ 0
  pub not_backspace : translate_scancode shift caps sc ≢ 8
  pub not_enter : translate_scancode shift caps sc ≢ b'\n'

abbrev pub ArePlain : Bool → Bool → List ℕ → Type 0
ArePlain shift caps [] = Unit
ArePlain shift caps (sc ∷ scs) = IsPlain shift caps sc × ArePlain shift caps scs

abbrev pub enter_key : ℕ
enter_key = 0x1C

enter_char : (shift caps : Bool) → translate_scancode shift caps enter_key ≡ b'\n'
unfolding translate_scancode
enter_char true true = refl
enter_char true false = refl
enter_char false true = refl
enter_char false false = refl

modifiers-on_char :
    (k : Keyboard) (c : ℕ)
    → ((on_char k c).shift_pressed ≡ k.shift_pressed) × ((on_char k c).caps_lock ≡ k.caps_lock)
unfolding on_char on_backspace on_enter on_text
modifiers-on_char k c = ground arith

-- A key that is no modifier is handled as its character, and the modifiers stay.
on_irq_make :
    (k : Keyboard) (sc : ℕ)
    → sc < 128
    → sc ≢ 0x2A
    → sc ≢ 0x36
    → sc ≢ 0x1D
    → sc ≢ 0x38
    → sc ≢ 0x3A
    → (view (on_irq k sc) ≡ view (on_char k (translate_scancode k.shift_pressed k.caps_lock sc)))
      × ((on_irq k sc).shift_pressed ≡ k.shift_pressed)
      × ((on_irq k sc).caps_lock ≡ k.caps_lock)
unfolding on_irq on_press
on_irq_make k sc h n₁ n₂ n₃ n₄ n₅ =
    ground (
      arith,
      make_code sc h,
      modifiers-on_char k (translate_scancode k.shift_pressed k.caps_lock sc),
    )

wait_line_ready :
    (k : Keyboard) (scs : List ℕ) → k.line_ready ≡ true → wait_line k scs ≡ some (k, scs)
unfolding wait_line
wait_line_ready k [] e = rw e
wait_line_ready k (sc ∷ scs) e = rw e

not_newline : (c : ℕ) → c ≢ b'\n' → (c == b'\n') ≡ false
not_newline c n = ground arith

wait_line_step :
    (k : Keyboard) (sc : ℕ) (scs : List ℕ)
    → k.line_ready ≡ false
    → wait_line k (sc ∷ scs) ≡ wait_line (on_irq k sc) scs
unfolding wait_line
wait_line_step k sc scs e = ground arith

readline_at :
    (k k' : Keyboard) (max_len : ℕ) (scs rest : List ℕ)
    → 0 < max_len
    → wait_line k scs ≡ some (k', rest)
    → readline k max_len scs ≡ some (take_line k' max_len rest)
unfolding readline
readline_at k k' max_len scs rest pos e = ground arith

edit_plain :
    (text : List ℕ) (c : ℕ)
    → length text < 255
    → c ≢ 0
    → c ≢ 8
    → edit (record { text = text; closed = false }) c
      ≡ record { text = text ++ c ∷ []; closed = c == b'\n' }
unfolding edit
edit_plain text c room n₁ n₂ = ground arith

module _ (shift caps : Bool) where
  -- The driver in the middle of a line, with these modifiers held.
  record IsTyping (text : List ℕ) (k : Keyboard) : Type 0 where
    valid : IsValid k
    open_line : k.line_ready ≡ false
    typed : (view k).text ≡ text
    with_shift : k.shift_pressed ≡ shift
    with_caps : k.caps_lock ≡ caps

  on_irq_plain :
      (text : List ℕ) (sc : ℕ) (k : Keyboard)
      → length text < 255
      → IsPlain shift caps sc
      → IsTyping text k
      → IsTyping (text ++ translate_scancode shift caps sc ∷ []) (on_irq k sc)
  on_irq_plain text sc k room p t =
      let c = translate_scancode shift caps sc in
      let c' = translate_scancode k.shift_pressed k.caps_lock sc in
      let same : c' ≡ c = ap₂ (λ s l. translate_scancode s l sc) t.with_shift t.with_caps in
      let made =
        on_irq_make k sc p.make p.not_left_shift p.not_right_shift p.not_ctrl p.not_alt
          p.not_caps in
      let now : view (on_irq k sc) ≡ record { text = text ++ c ∷ []; closed = c == b'\n' } =
        made.0
        ∙ view-on_char c' t.valid
        ∙ ap₂ edit (λ i. record { text = t.typed i; closed = t.open_line i }) same
        ∙ edit_plain text c room p.shown p.not_backspace in
      record {
        valid = on_irq-IsValid sc t.valid;
        open_line = ap (λ e. e.closed) now ∙ not_newline c p.not_enter;
        typed = ap (λ e. e.text) now;
        with_shift = made.1 ∙ t.with_shift;
        with_caps = made.2 ∙ t.with_caps;
      }

  on_irq_enter :
      (text : List ℕ) (k : Keyboard)
      → length text < 255
      → IsTyping text k
      → IsValid (on_irq k enter_key)
        × ((on_irq k enter_key).line_ready ≡ true)
        × ((view (on_irq k enter_key)).text ≡ text ++ b'\n' ∷ [])
  on_irq_enter text k room t =
      let c' = translate_scancode k.shift_pressed k.caps_lock enter_key in
      let same : c' ≡ b'\n' =
        ap₂ (λ s l. translate_scancode s l enter_key) t.with_shift t.with_caps
        ∙ enter_char shift caps in
      let now : view (on_irq k enter_key) ≡ record { text = text ++ b'\n' ∷ []; closed = true } =
        (on_irq_make k enter_key (omega arith) (omega arith) (omega arith) (omega arith)
          (omega arith) (omega arith)).0
        ∙ view-on_char c' t.valid
        ∙ ap₂ edit (λ i. record { text = t.typed i; closed = t.open_line i }) same
        ∙ edit_plain text b'\n' room (omega arith) (omega arith) in
      (on_irq-IsValid enter_key t.valid, ap (λ e. e.closed) now, ap (λ e. e.text) now)

  wait_line_typed :
      (scs rest text : List ℕ) (k : Keyboard)
      → length text + length scs < 255
      → ArePlain shift caps scs
      → IsTyping text k
      → (k' : Keyboard) × (wait_line k (scs ++ enter_key ∷ rest) ≡ some (k', rest))
        × IsValid k'
        × ((view k').text ≡ text ++ (map (translate_scancode shift caps) scs ++ b'\n' ∷ []))
  wait_line_typed [] rest text k room ps t =
      let (v, ready, typed) = on_irq_enter text k (omega arith) t in
      (
        on_irq k enter_key,
        wait_line_step k enter_key rest t.open_line ∙ wait_line_ready _ rest ready,
        v,
        typed,
      )
  wait_line_typed (sc ∷ scs) rest text k room ps t =
      let c = translate_scancode shift caps sc in
      let (k', e, v, typed) =
        wait_line_typed scs rest (text ++ c ∷ []) (on_irq k sc)
          (omega (arith, length-append text (c ∷ []))) ps.1
          (on_irq_plain text sc k (omega arith) ps.0 t) in
      (k', wait_line_step k sc _ t.open_line ∙ e, v, typed ∙ append_assoc text (c ∷ []) _)

-- A reader waits on an empty line; then the keys `scs` are pressed, at most 254 of them, none of
-- them a modifier or editing key, and Enter. It returns their characters and a newline, cut to
-- the room given and ended by a zero, leaves the line empty, and what comes later pending.
pub readline_typed :
    (shift caps : Bool) (scs rest : List ℕ) (max_len : ℕ) (k : Keyboard)
    → 0 < max_len
    → length scs < 255
    → ArePlain shift caps scs
    → IsValid k
    → k.line_ready ≡ false
    → k.buf_len ≡ 0
    → k.shift_pressed ≡ shift
    → k.caps_lock ≡ caps
    → (r : Reply) × (readline k max_len (scs ++ enter_key ∷ rest) ≡ some r)
      × (r.count ≡ min (max_len - 1) (length scs + 1))
      × (r.out
          ≡ take (max_len - 1) (map (translate_scancode shift caps) scs ++ b'\n' ∷ []) ++ 0 ∷ [])
      × (r.pending ≡ rest)
      × (view r.keyboard ≡ record { text = []; closed = false })
unfolding take_line
readline_typed shift caps scs rest max_len k pos room ps v idle empty with_shift with_caps =
    let (k', e, v', typed) = wait_line_typed shift caps scs rest [] k (omega arith) ps (record {
      valid = v;
      open_line = idle;
      typed = ap (λ n. take n k.buffer) empty;
      with_shift = with_shift;
      with_caps = with_caps;
    }) in
    let typed_length = length-append (map (translate_scancode shift caps) scs) (b'\n' ∷ []) in
    let filled : k'.buf_len ≡ length scs + 1 =
      sym (length-view v')
      ∙ ap length typed
      ∙ typed_length
      ∙ ap (λ n. n + 1) (length-map scs (translate_scancode shift caps)) in
    (
      take_line k' max_len rest,
      readline_at k k' max_len _ rest pos e,
      ground (arith, filled),
      ap (λ l. l ++ 0 ∷ [])
          (sym (take-take k'.buffer (max_len - 1) k'.buf_len) ∙ ap (take (max_len - 1)) typed),
      refl,
      refl,
    )
