-- ===== src/Tracking/Points/RoundTrip.antt =====
-- A calibration that is written is read back.
use libsimple.Base.{
  ◌≡◌, ◌≢◌, refl, ap, ◌∙◌, some, List, [], ◌∷◌, ◌++◌, append-nil, sym, Bytes, arith,
}
use libsimple.Clib.Scan.{IsInt, print_int, print_int-Lacks, scan_int, scan_int-print_int}
use libsimple.Clib.Text.{Lacks, append-Lacks}
use libsimple.Clib.Tokens.{tokens, tokens-append}
use libsimple.Tracking.Points.{Point, print_points, scan_point, scan_points, pushed, with_x, with_y}

abbrev print_point : Point → Bytes
print_point p = print_int p.x ++ (b',' ∷ print_int p.y)

scan_point-print_point : (p : Point) → IsInt p.x → IsInt p.y → scan_point (print_point p) ≡ some p
unfolding scan_point
scan_point-print_point p hx hy =
    let first = scan_int-print_int p.x (b',' ∷ print_int p.y) hx refl in
    let second : scan_int (print_int p.y) ≡ some (p.y, []) =
      ap scan_int (sym (append-nil (print_int p.y))) ∙ scan_int-print_int p.y [] hy refl in
    ap with_x first ∙ ap (with_y p.x) second

-- Every coordinate is an `int`.
abbrev pub AllInt : List Point → Type 0
AllInt [] = Unit
AllInt (p ∷ ps) = IsInt p.x × IsInt p.y × AllInt ps

print_point-Lacks : (p : Point) → Lacks b';' (print_point p)
print_point-Lacks p =
    append-Lacks b';' (print_int p.x) (b',' ∷ print_int p.y)
      (print_int-Lacks b';' p.x refl (λ e. omega (arith, e)))
      (λ e. omega (arith, e), print_int-Lacks b';' p.y refl (λ e. omega (arith, e)))

tokens-first :
    (s rest : Bytes)
    → s ≢ []
    → Lacks b';' s
    → tokens b';' (s ++ (b';' ∷ rest)) ≡ s ∷ tokens b';' rest
tokens-first [] rest n h = absurd (n refl)
tokens-first (c ∷ s) rest n h = tokens-append b';' c s rest h

print_point-cons : (xs : Bytes) (c : _) (ys : Bytes) → xs ++ (c ∷ ys) ≢ []
print_point-cons [] c ys e = absurd (ground (arith, e))
print_point-cons (x ∷ xs) c ys e = absurd (ground (arith, e))

pub scan_points-print_points :
    (ps : List Point) → AllInt ps → scan_points (tokens b';' (print_points ps)) ≡ ps
unfolding print_points scan_points
scan_points-print_points [] h = unfold tokens in refl
scan_points-print_points (p ∷ ps) (hx, hy, h) =
    ap scan_points (
      tokens-first (print_point p) (print_points ps)
        (print_point-cons (print_int p.x) b',' (print_int p.y)) (print_point-Lacks p))
    ∙ ap (λ o. pushed o (scan_points (tokens b';' (print_points ps))))
        (scan_point-print_point p hx hy)
    ∙ ap (p ∷◌) (scan_points-print_points ps h)
