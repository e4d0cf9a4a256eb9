-- ===== src/Daemon/PtyLog/Lines/Clean.antt =====
-- The operations on one line keep control bytes out of the line and out of the log
-- (internal/daemon/ptylog.go).
use spinloop.Prelude.{
  ℕ, zero, suc, Bool, true, false, not, ◌≡◌, refl, List, [], ◌∷◌, ◌++◌, if◌then◌else◌, ◌==◌, ◌&&◌,
  arith, All, All-append,
}
use spinloop.Daemon.PtyLog.Lines.{
  PtyLine, Drawn, line_at, set_line, extend, consider_state, record_final, settle, settle_on_escape,
  erase, land, commit_line, carriage_return, text_byte, put_byte,
}

-- Not an escape, a carriage return or a newline.
abbrev pub is_text : ℕ → Bool
is_text c = not (c == 0x1b) && (not (c == 13) && not (c == 10))

abbrev pub IsText : List ℕ → Type 0
IsText bytes = All (λ c. is_text c ≡ true) bytes

abbrev pub CleanLine : PtyLine → Type 0
CleanLine l = IsText l.content

pub record CleanDrawn (d : Drawn) : Type 0 where
  pub out : All IsText d.out
  pub line : CleanLine d.line

-- An operation that keeps a clean log and a clean line clean.
abbrev pub Keeps : (List (List ℕ) → PtyLine → Drawn) → Type 0
Keeps f = (out : List (List ℕ)) (l : PtyLine) → All IsText out → CleanLine l → CleanDrawn (f out l)

pub written :
    (out : List (List ℕ)) (content : List ℕ)
    → All IsText out
    → IsText content
    → All IsText (out ++ content ∷ [])
written out content o c = All-append IsText out (content ∷ []) o (c, tt)

pub consider_state-Keeps : (now : ℕ) → Keeps (consider_state now)
unfolding consider_state
consider_state-Keeps now out l o c = ground (arith, written out l.content o c)

pub record_final-Keeps : (now : ℕ) → Keeps (record_final now)
unfolding record_final
record_final-Keeps now out l o c = ground (arith, written out l.content o c)

pub settle-Keeps : (now : ℕ) → Keeps (settle now)
unfolding settle
settle-Keeps now out l o c = ground (arith, consider_state-Keeps now out l o c)

pub settle_on_escape-Keeps : (now : ℕ) → Keeps (settle_on_escape now)
unfolding settle_on_escape
settle_on_escape-Keeps now out l o c = ground (arith, settle-Keeps now out l o c)

pub erase-Keeps : (now : ℕ) → Keeps (erase now)
unfolding erase
erase-Keeps now out l o c = ground (arith, settle-Keeps now out l o c)

pub land-Keeps : (now : ℕ) → Keeps (land now)
unfolding land
land-Keeps now out l o c = ground (arith, settle-Keeps now out l o c)

pub commit_line-Keeps : (now : ℕ) (at_eof : Bool) → Keeps (commit_line now at_eof)
unfolding commit_line
commit_line-Keeps now at_eof out l o c =
    ground (arith, record_final-Keeps now out l o c, written out l.content o c)

pub carriage_return-Keeps : (now : ℕ) → Keeps (carriage_return now)
unfolding carriage_return
carriage_return-Keeps now out l o c = ground (arith, settle-Keeps now out l o c)

-- A property of both branches is one of the test.
pub either {ℓ} :
    {A : Type ℓ} → (P : A → Type 0) (b : Bool) (x y : A) → P x → P y → P (if b then x else y)
either P true x y h k = h
either P false x y h k = k

put_byte-CleanLine :
    (c : ℕ) (l : PtyLine) → is_text c ≡ true → CleanLine l → CleanLine (put_byte c l)
unfolding put_byte
put_byte-CleanLine c l t k =
    either CleanLine l.replacing _ _ (t, tt)
      (All-append (λ x. is_text x ≡ true) l.content (c ∷ []) k (t, tt))

pub text_byte-Keeps : (now c : ℕ) → is_text c ≡ true → Keeps (text_byte now c)
unfolding text_byte
text_byte-Keeps now c t out l o k =
    let d = settle-Keeps now out l o k in
    either CleanDrawn l.pending_cr _ _
      (record {
        out = d.out;
        line =
            put_byte-CleanLine c
              (record (settle now out l).line {
                pending_cr = false;
                replacing = true;
                drawing = true;
              })
              t d.line;
      })
      (record { out = o; line = put_byte-CleanLine c l t k })

pub line_at-CleanLine :
    (ls : List PtyLine) (row : ℕ) → All CleanLine ls → CleanLine (line_at ls row)
unfolding line_at
line_at-CleanLine [] row h = tt
line_at-CleanLine (l ∷ ls) zero h = h.0
line_at-CleanLine (l ∷ ls) (suc row) h = line_at-CleanLine ls row h.1

pub set_line-CleanLine :
    (ls : List PtyLine) (row : ℕ) (l : PtyLine)
    → All CleanLine ls
    → CleanLine l
    → All CleanLine (set_line ls row l)
unfolding set_line
set_line-CleanLine [] row l h k = tt
set_line-CleanLine (x ∷ ls) zero l h k = (k, h.1)
set_line-CleanLine (x ∷ ls) (suc row) l h k = (h.0, set_line-CleanLine ls row l h.1 k)

pub extend-CleanLine :
    (ls : List PtyLine) (row : ℕ) → All CleanLine ls → All CleanLine (extend ls row)
unfolding extend
extend-CleanLine [] zero h = (tt, tt)
extend-CleanLine [] (suc row) h = (tt, extend-CleanLine [] row tt)
extend-CleanLine (l ∷ ls) zero h = h
extend-CleanLine (l ∷ ls) (suc row) h = (h.0, extend-CleanLine ls row h.1)

-- As `either`, where a branch may use the outcome of the test.
pub by_test {ℓ} :
    {A : Type ℓ}
    → (P : A → Type 0) (b : Bool) (x y : A) → (b ≡ true → P x)
    → (b ≡ false → P y)
    → P (if b then x else y)
by_test P true x y h k = h refl
by_test P false x y h k = k refl
