-- ===== src/Config/Text/Names.antt =====
-- The names of backends and of steps in src/config.cpp.
use ocudu_channel.Common.{◌≡◌, ◌↔◌, refl, sym, subst, arith, String, eq_iff, ok}
use ocudu_channel.Config.{Backend, cpu, cuda, ModelStepType, path_loss, awgn, phase, cfo, tdl}
use ocudu_channel.Config.Text.{parse_backend, parse_model_step_type, backend_name, step_type_name}

name-step_type :
    (s : String) (t : ModelStepType) → parse_model_step_type s ≡ ok t → s ≡ step_type_name t
unfolding parse_model_step_type step_type_name
name-step_type s t e =
    ground (
      arith,
      eq_iff s "path_loss",
      eq_iff s "awgn",
      eq_iff s "phase",
      eq_iff s "cfo",
      eq_iff s "tdl",
    )

step_type-name : (t : ModelStepType) → parse_model_step_type (step_type_name t) ≡ ok t
unfolding parse_model_step_type step_type_name
step_type-name path_loss = refl
step_type-name awgn = refl
step_type-name phase = refl
step_type-name cfo = refl
step_type-name tdl = refl

name-backend : (s : String) (b : Backend) → parse_backend s ≡ ok b → s ≡ backend_name b
unfolding parse_backend backend_name
name-backend s b e = ground (arith, eq_iff s "cpu", eq_iff s "cuda")

backend-name : (b : Backend) → parse_backend (backend_name b) ≡ ok b
unfolding parse_backend backend_name
backend-name cpu = refl
backend-name cuda = refl

-- A text is read as a step's type exactly when it is the name that the type is printed with, and as
-- a backend exactly when it is that backend's name.
pub parse-names :
    (s : String) (t : ModelStepType) (b : Backend)
    → ((parse_model_step_type s ≡ ok t) ↔ (s ≡ step_type_name t))
      × ((parse_backend s ≡ ok b) ↔ (s ≡ backend_name b))
parse-names s t b = (
  (name-step_type s t, λ e. subst (λ x. parse_model_step_type x ≡ ok t) (sym e) (step_type-name t)),
  (name-backend s b, λ e. subst (λ x. parse_backend x ≡ ok b) (sym e) (backend-name b)),
)
