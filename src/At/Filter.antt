-- ===== src/At/Filter.antt =====
-- `at_is_safe_command` of src/at.c, on a command that is not NULL.
use cellmgr.Base.{ℕ, Bool, true, false, not, ◌||◌, List, [], ◌∷◌, ◌==◌, if◌then◌else◌, Bytes, codes}
use cellmgr.Libc.Text.{toupper, skip_while}

-- The NUL at the end of `s` differs from every byte of the prefix.
unfoldable pub starts_with_ci : Bytes → Bytes → Bool
unfolding toupper
starts_with_ci s [] = true
starts_with_ci [] (p ∷ prefix) = false
starts_with_ci (c ∷ s) (p ∷ prefix) =
    if not (toupper c == toupper p) then false else starts_with_ci s prefix

abbrev pub danger : List Bytes
danger =
    codes "AT+CFUN=1,1"
    ∷ codes "AT+CPWROFF"
    ∷ codes "AT+GTACT="
    ∷ codes "AT+GTCELLLOCK="
    ∷ codes "AT+CMGD="
    ∷ codes "AT+CGDCONT="
    ∷ codes "AT+CGACT="
    ∷ codes "AT+CGEQOS="
    ∷ []

-- The loop over the list.
unfoldable pub is_none_of : List Bytes → Bytes → Bool
unfolding starts_with_ci
is_none_of [] command = true
is_none_of (d ∷ ds) command = if starts_with_ci command d then false else is_none_of ds command

abbrev pub is_indent : ℕ → Bool
is_indent c = c == b' ' || c == b'\t'

unfoldable pub at_is_safe_command : Bytes → Bool
unfolding starts_with_ci is_none_of skip_while
at_is_safe_command raw =
    let command = skip_while is_indent raw in
    if not (starts_with_ci command (codes "AT")) then false else is_none_of danger command
