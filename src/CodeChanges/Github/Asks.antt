-- ===== src/CodeChanges/Github/Asks.antt =====
-- code_changes/publisher.py: which requests the parts of a publication send.
use ai_hq.Prelude.{String, Option, List, [], ◌∷◌, ◌++◌, ◌≡◌, refl, sym, ◌∙◌, ap, All}
use ai_hq.Prelude.Result.{Result, ok, err, ◌>>=◌, continue}
use mathlib.Core.List.{append_assoc, append-nil}
use ai_hq.Prelude.Rows.Members.{All-append}
use ai_hq.CodeChanges.Github.Requests.{
  HttpMethod, HttpRequest, HttpAnswer, Asking, give, request_to, request,
}
use ai_hq.Json.{Json}

module _ (P : HttpRequest → Type 0) where
  -- What a program has asked in addition, each request with `P`.
  pub record Added (before after : List HttpRequest) : Type 0 where
    pub asked : List HttpRequest
    pub grown : after ≡ before ++ asked
    pub kept : All P asked

  pub record Asks {A : Type 0} (m : Asking A) : Type 0 where
    pub at : (sent : List HttpRequest) → Added sent (m sent).1

  pub Added-none : (sent : List HttpRequest) → Added sent sent
  Added-none sent = record { asked = []; grown = sym (append-nil sent); kept = tt }

  pub Added-then : (xs ys zs : List HttpRequest) → Added xs ys → Added ys zs → Added xs zs
  Added-then xs ys zs f g = record {
    asked = f.asked ++ g.asked;
    grown = g.grown ∙ ap (λ s. s ++ g.asked) f.grown ∙ append_assoc xs f.asked g.asked;
    kept = All-append P f.asked g.asked f.kept g.kept;
  }

  pub give-Asks : {A : Type 0} (r : Result A) → Asks (give r)
  give-Asks r = record { at = λ sent. Added-none sent }

  continue-Added :
      {A B : Type 0} (r : Result A) (f : A → Asking B) (after : List HttpRequest)
      → ((a : A) → Asks (f a))
      → Added after (continue r f after).1
  continue-Added (ok a) f after hf = (hf a).at after
  continue-Added (err e) f after hf = Added-none after

  pub bind-Asks :
      {A B : Type 0} (m : Asking A) (f : A → Asking B)
      → Asks m
      → ((a : A) → Asks (f a))
      → Asks (m >>= f)
  bind-Asks m f hm hf = record {
    at = λ sent.
        let (r, after) = m sent in
        Added-then sent after (continue r f after).1 (hm.at sent) (continue-Added r f after hf);
  }

  -- What follows a value may use how it came about.
  pub bind_give-Asks :
      {A B : Type 0} (r : Result A) (f : A → Asking B)
      → ((a : A) → r ≡ ok a → Asks (f a))
      → Asks (give r >>= f)
  bind_give-Asks (ok a) f hf = record { at = λ sent. (hf a refl).at sent }
  bind_give-Asks (err e) f hf = record { at = λ sent. Added-none sent }

  pub request-Asks :
      (http : List HttpRequest → HttpRequest → HttpAnswer) (token : String) (method : HttpMethod)
      (url : String) (body : Option Json)
      → P (request_to http token method url body)
      → Asks (request http token method url body)
  unfolding request
  request-Asks http token method url body h = record {
    at = λ sent. record {
      asked = request_to http token method url body ∷ [];
      grown = refl;
      kept = (h, tt);
    };
  }
