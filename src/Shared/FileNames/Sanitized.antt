-- ===== src/Shared/FileNames/Sanitized.antt =====
-- What a sanitized file name is.
use file_share_app.Base.{
  ℕ, ◌≤◌, ◌<◌, ◌≡◌, refl, Bool, true, false, [], ◌∷◌, length, take, length-take, Utf16, arith, All,
}
use file_share_app.Shared.Constants.{max_filename_length}
use file_share_app.Shared.FileNames.{
  is_separator, replace_separators, replace_dots_after, Dots, no_dot, one_dot, run_of_dots,
  after_dots, one_more, is_space, trim_start, trim_end, put_unless_blank, or_unnamed,
  sanitize_file_name,
}

-- No path separator.
abbrev pub IsPlain : Utf16 → Type 0
IsPlain = All (λ u. is_separator u ≡ false)

replace_separators-IsPlain : (us : Utf16) → IsPlain (replace_separators us)
unfolding replace_separators
replace_separators-IsPlain [] = tt
replace_separators-IsPlain (u ∷ us) = (ground arith, replace_separators-IsPlain us)

after_dots-IsPlain : (dots : Dots) (us : Utf16) → IsPlain us → IsPlain (after_dots dots us)
after_dots-IsPlain no_dot us h = h
after_dots-IsPlain one_dot us h = (refl, h)
after_dots-IsPlain run_of_dots us h = (refl, h)

replace_dots_after-IsPlain :
    (dots : Dots) (us : Utf16) → IsPlain us → IsPlain (replace_dots_after dots us)
unfolding replace_dots_after
replace_dots_after-IsPlain dots [] h = after_dots-IsPlain dots [] tt
replace_dots_after-IsPlain dots (u ∷ us) (p, h) = ground (
  arith,
  replace_dots_after-IsPlain (one_more dots) us h,
  after_dots-IsPlain dots (u ∷ replace_dots_after no_dot us)
      (p, replace_dots_after-IsPlain no_dot us h),
)

trim_start-IsPlain : (us : Utf16) → IsPlain us → IsPlain (trim_start us)
unfolding trim_start
trim_start-IsPlain [] h = tt
trim_start-IsPlain (u ∷ us) h = ground (arith, trim_start-IsPlain us h.1)

put-IsPlain :
    (space : Bool) (u : ℕ) (us : Utf16)
    → is_separator u ≡ false
    → IsPlain us
    → IsPlain (put_unless_blank space u us)
put-IsPlain true u [] p h = tt
put-IsPlain false u [] p h = (p, tt)
put-IsPlain space u (v ∷ vs) p h = (p, h)

trim_end-IsPlain : (us : Utf16) → IsPlain us → IsPlain (trim_end us)
unfolding trim_end
trim_end-IsPlain [] h = tt
trim_end-IsPlain (u ∷ us) (p, h) =
    put-IsPlain (is_space u) u (trim_end us) p (trim_end-IsPlain us h)

take-IsPlain : (n : ℕ) (us : Utf16) → IsPlain us → IsPlain (take n us)
take-IsPlain ℕ.zero us h = tt
take-IsPlain (ℕ.suc n) [] h = tt
take-IsPlain (ℕ.suc n) (u ∷ us) (p, h) = (p, take-IsPlain n us h)

or_unnamed_lem :
    (us : Utf16)
    → IsPlain us
    → length us ≤ max_filename_length
    → IsPlain (or_unnamed us)
      × (0 < length (or_unnamed us))
      × (length (or_unnamed us) ≤ max_filename_length)
or_unnamed_lem [] h le = ground arith
or_unnamed_lem (u ∷ us) h le = (h, omega arith, le)

-- Whatever name a peer gives, the sanitized one has no path separator, is not empty, and has at
-- most 255 UTF-16 units.
pub sanitize_file_name-IsPlain :
    (name : Utf16)
    → IsPlain (sanitize_file_name name)
      × (0 < length (sanitize_file_name name))
      × (length (sanitize_file_name name) ≤ max_filename_length)
unfolding sanitize_file_name
sanitize_file_name-IsPlain name =
    let trimmed = trim_end (trim_start (replace_dots_after no_dot (replace_separators name))) in
    or_unnamed_lem (take max_filename_length trimmed)
      (take-IsPlain max_filename_length trimmed (
        trim_end-IsPlain _ (
          trim_start-IsPlain _
            (replace_dots_after-IsPlain no_dot _ (replace_separators-IsPlain name)))))
      (omega (arith, length-take max_filename_length trimmed))
