-- ===== src/Config/Tests.antt =====
-- Two pools in the environment, one of them twice.
use octora.Base.{ℕ, ◌≡◌, refl, none, some, List, [], ◌∷◌, ◌===◌, if◌then◌else◌}
use octora.Base.Integers.{ℤ, pos}
use octora.Base.Effect.{ok, err}
use octora.Config.{
  Texts, Env, wildcard_in_production, load_mixer_denominations, load_frontend_url, entry_values,
}
use octora.Config.Denominations.{IsPools, load_mixer_denominations-IsPools}

abbrev test_texts : Texts ℕ
test_texts = record {
  trim = λ text. text;
  split = λ text. if text === "5,3,5" then "5" ∷ "3" ∷ "5" ∷ [] else text ∷ [];
  big_int = λ text. some (if text === "5" then pos 5 else pos 3);
  number = λ text. 0;
}

abbrev test_env : Env
test_env name =
    if name === "MIXER_DENOMINATIONS"
    then some "5,3,5"
    else (if name === "NODE_ENV"
        then some "production"
        else (if name === "FRONTEND_URL" then some "*" else none))

wildcard_refused : load_frontend_url test_texts test_env ≡ err wildcard_in_production
unfolding load_frontend_url
wildcard_refused = refl

test_entries : entry_values test_texts ("5" ∷ "3" ∷ "5" ∷ []) ≡ ok (pos 5 ∷ pos 3 ∷ pos 5 ∷ [])
unfolding entry_values
test_entries = refl

load_mixer_denominations-IsPools_example :
    (pools : List ℤ) × (load_mixer_denominations test_texts test_env ≡ ok pools)
    × IsPools (pos 5 ∷ pos 3 ∷ pos 5 ∷ []) pools
load_mixer_denominations-IsPools_example =
    load_mixer_denominations-IsPools test_texts test_env (pos 5) (pos 3 ∷ pos 5 ∷ []) refl
      test_entries
