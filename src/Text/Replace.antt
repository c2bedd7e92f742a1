-- ===== src/Text/Replace.antt =====
-- `s.replace(from, to)` of Rust's `str`, for a `from` that is not empty.
use fire_crow.Prelude.{ℕ, zero, suc, ◌-◌, length, [], ◌∷◌, ◌++◌, if◌then◌else◌}
use fire_crow.Text.{Str, starts_with}

-- `skip` bytes of a match are left to pass over.
replace_from : ℕ → Str → Str → Str → Str
replace_from skip [] from to = []
replace_from (suc skip) (x ∷ s) from to = replace_from skip s from to
replace_from zero (x ∷ s) from to =
    let matched = replace_from (length from - 1) s from to in
    let plain = replace_from zero s from to in
    if starts_with (x ∷ s) from then to ++ matched else x ∷ plain

unfoldable pub replace : Str → Str → Str → Str
unfolding replace_from
replace s from to = replace_from zero s from to
