-- ===== src/Shared/FileNames/Safe.antt =====
-- A sanitized name is one that the schema takes, unless it is a single dot.
use file_share_app.Base.{
  ℕ, zero, suc, ◌≡◌, ◌≢◌, refl, ap, subst, Bool, true, false, ◌&&◌, [], ◌∷◌, ◌++◌, take, some, eqb,
  Utf16, utf16_eq, utf16_beq_iff, units, ◌==◌, if◌then◌else◌, Bool-cases, inl, inr, arith,
}
use file_share_app.Shared.FileNames.{
  replace_separators, replace_dots_after, Dots, no_dot, one_dot, run_of_dots, after_dots, one_more,
  is_space, trim_start, trim_end, put_unless_blank, or_unnamed, sanitize_file_name, includes_unit,
  safe_name,
}
use file_share_app.Shared.Constants.{max_filename_length}
use file_share_app.Shared.FileNames.Sanitized.{IsPlain, sanitize_file_name-IsPlain}

-- No two dots in a row.
abbrev pub HasSingleDots : Utf16 → Type 0
HasSingleDots [] = Unit
HasSingleDots (u ∷ []) = Unit
HasSingleDots (u ∷ v ∷ us) = ((eqb u 46 && eqb v 46) ≡ false) × HasSingleDots (v ∷ us)

tail-HasSingleDots : (u : ℕ) (us : Utf16) → HasSingleDots (u ∷ us) → HasSingleDots us
tail-HasSingleDots u [] h = tt
tail-HasSingleDots u (v ∷ vs) h = h.1

cons-HasSingleDots :
    (u : ℕ) (us : Utf16) → eqb u 46 ≡ false → HasSingleDots us → HasSingleDots (u ∷ us)
cons-HasSingleDots u [] e h = tt
cons-HasSingleDots u (v ∷ vs) e h = (ground arith, h)

after_dots-HasSingleDots :
    (dots : Dots) (u : ℕ) (us : Utf16)
    → eqb u 46 ≡ false
    → HasSingleDots (u ∷ us)
    → HasSingleDots (after_dots dots (u ∷ us))
after_dots-HasSingleDots no_dot u us e h = h
after_dots-HasSingleDots one_dot u us e h = (ground arith, h)
after_dots-HasSingleDots run_of_dots u us e h = (refl, h)

after_dots-end : (dots : Dots) → HasSingleDots (after_dots dots [])
after_dots-end no_dot = tt
after_dots-end one_dot = tt
after_dots-end run_of_dots = tt

replace_dots-HasSingleDots : (dots : Dots) (us : Utf16) → HasSingleDots (replace_dots_after dots us)
unfolding replace_dots_after
replace_dots-HasSingleDots dots [] = after_dots-end dots
replace_dots-HasSingleDots dots (u ∷ us) =
    by_dot (replace_dots-HasSingleDots (one_more dots) us) (replace_dots-HasSingleDots no_dot us)
      (eqb u 46) refl
  where
    by_dot :
        HasSingleDots (replace_dots_after (one_more dots) us)
        → HasSingleDots (replace_dots_after no_dot us)
        → (b : Bool) → eqb u 46 ≡ b
        → HasSingleDots (
            if b
            then replace_dots_after (one_more dots) us
            else after_dots dots (u ∷ replace_dots_after no_dot us))
    by_dot more rest true e = more
    by_dot more rest false e = after_dots-HasSingleDots dots u _ e (cons-HasSingleDots u _ e rest)

trim_start-HasSingleDots : (us : Utf16) → HasSingleDots us → HasSingleDots (trim_start us)
unfolding trim_start
trim_start-HasSingleDots [] h = tt
trim_start-HasSingleDots (u ∷ us) h =
    by_space (trim_start-HasSingleDots us (tail-HasSingleDots u us h)) (is_space u)
  where
    by_space :
        HasSingleDots (trim_start us)
        → (b : Bool) → HasSingleDots (if b then trim_start us else u ∷ us)
    by_space rest true = rest
    by_space rest false = h

-- A prefix of a name.
abbrev IsPrefix : Utf16 → Utf16 → Type 0
IsPrefix us vs = (ws : Utf16) × (vs ≡ us ++ ws)

append-HasSingleDots : (us ws : Utf16) → HasSingleDots (us ++ ws) → HasSingleDots us
append-HasSingleDots [] ws h = tt
append-HasSingleDots (u ∷ []) ws h = tt
append-HasSingleDots (u ∷ v ∷ us) ws (e, h) = (e, append-HasSingleDots (v ∷ us) ws h)

prefix-HasSingleDots : (us vs : Utf16) → IsPrefix us vs → HasSingleDots vs → HasSingleDots us
prefix-HasSingleDots us vs (ws, e) h = append-HasSingleDots us ws (subst HasSingleDots e h)

put-IsPrefix :
    (space : Bool) (u : ℕ) (us vs : Utf16)
    → IsPrefix us vs
    → IsPrefix (put_unless_blank space u us) (u ∷ vs)
put-IsPrefix space u (w ∷ us) vs (ws, e) = (ws, ap (λ t. u ∷ t) e)
put-IsPrefix true u [] vs p = (u ∷ vs, refl)
put-IsPrefix false u [] vs p = (vs, refl)

trim_end-IsPrefix : (us : Utf16) → IsPrefix (trim_end us) us
unfolding trim_end
trim_end-IsPrefix [] = ([], refl)
trim_end-IsPrefix (u ∷ us) = put-IsPrefix (is_space u) u (trim_end us) us (trim_end-IsPrefix us)

take-IsPrefix : (n : ℕ) (us : Utf16) → IsPrefix (take n us) us
take-IsPrefix zero us = (us, refl)
take-IsPrefix (suc n) [] = ([], refl)
take-IsPrefix (suc n) (u ∷ us) = let (ws, e) = take-IsPrefix n us in (ws, ap (λ t. u ∷ t) e)

or_unnamed-HasSingleDots : (us : Utf16) → HasSingleDots us → HasSingleDots (or_unnamed us)
or_unnamed-HasSingleDots [] h = ground arith
or_unnamed-HasSingleDots (u ∷ us) h = h

sanitized-HasSingleDots : (name : Utf16) → HasSingleDots (sanitize_file_name name)
unfolding sanitize_file_name
sanitized-HasSingleDots name =
    let trimmed = trim_start (replace_dots_after no_dot (replace_separators name)) in
    or_unnamed-HasSingleDots _ (
      prefix-HasSingleDots _ _ (take-IsPrefix max_filename_length (trim_end trimmed)) (
        prefix-HasSingleDots _ _ (trim_end-IsPrefix trimmed) (
          trim_start-HasSingleDots _
            (replace_dots-HasSingleDots no_dot (replace_separators name)))))

includes-IsPlain :
    (us : Utf16) → IsPlain us → (includes_unit 47 us ≡ false) × (includes_unit 92 us ≡ false)
includes-IsPlain [] h = (refl, refl)
includes-IsPlain (u ∷ us) (p, h) = ground (arith, includes-IsPlain us h)

safe_name_of :
    (us : Utf16) → IsPlain us → HasSingleDots us → us ≢ units "." → safe_name (some us) ≡ some us
safe_name_of us plain dots other =
    let (a, b) = includes-IsPlain us plain in
    let c : (us == units ".") ≡ false = not_same us (units ".") other in
    let d : (us == units "..") ≡ false =
      not_same us (units "..") (λ e. two_dots (subst HasSingleDots e dots)) in
    rw (a, b, c, d) refl
  where
    not_same : (s t : Utf16) → s ≢ t → (s == t) ≡ false
    not_same s t h = elim (Bool-cases (s == t)) [
      | inl e ↦ absurd (h ((utf16_beq_iff s t).0 e))
      | inr e ↦ e
    ]

    two_dots : HasSingleDots (units "..") → ⊥
    two_dots h = cc

-- A sanitized name passes the test of safeFileNameSchema for path parts, unless it is the single
-- dot.
pub sanitize_file_name-safe :
    (name : Utf16)
    → sanitize_file_name name ≢ units "."
    → safe_name (some (sanitize_file_name name)) ≡ some (sanitize_file_name name)
sanitize_file_name-safe name other =
    safe_name_of _ (sanitize_file_name-IsPlain name).0 (sanitized-HasSingleDots name) other
