-- ===== src/Control/Examples.antt =====
-- A server with one link on concrete requests, in fixed-point arithmetic.
use Prim.Native.Char.{code}
use ocudu_channel.Common.{
  ℕ, ◌+◌, ◌-◌, ◌*◌, ◌/◌, ◌%◌, ◌^◌, ◌≡◌, ◌≢◌, refl, ap, Bool, true, false, not, none, some, List, [],
  ◌∷◌, String, Floats, ok, err, ltb, ◌==◌, if◌then◌else◌, arith, lookup, emplace, modify,
}
use ocudu_channel.Runtime.{
  MutableParams, BrokerLinkControl, default_profile, init_broker_link_control,
}
use ocudu_channel.Control.Json.{
  string, number, Fields, end, field, emplace_field, out_of_fuel, find, get_number, get_string,
}
use ocudu_channel.Control.Reader.{parse_body, read_string}
use ocudu_channel.Control.Reader.Escape.{json_escape, read_string-json_escape}
use ocudu_channel.Control.Reader.Total.{parse_body_total}
use ocudu_channel.Control.Params.{find_spec, find_param_spec, in_range, apply_update}
use ocudu_channel.Control.Params.Fields.{Updated, apply_update-Updated}
use ocudu_channel.Control.State.{
  scalar_op, rejected, applied, Env, ControlServer, unknown_link, out_of_range, find_control,
}
use ocudu_channel.Control.Checks.{
  ScalarRequest, check_scalar, check_scalar_fields, resolve_optional_batch, batch_id,
}
use ocudu_channel.Control.Invariant.{Sound}
use ocudu_channel.Control.Handlers.{
  handle_message, handle_scalar_update, handle_batch_commit, handle_batch_begin, stage,
}
use ocudu_channel.Control.Handlers.GoesLive.{GoesLive, scalar-GoesLive}
use ocudu_channel.Control.Server.{
  new_server, serve_all, serve_all-Sound, reply-Clean, Committed, commit-Committed,
}

-- A sign and a magnitude in units of 10 ^ -16.
abbrev Fixed : Type 0
Fixed = Bool × ℕ

abbrev unit : ℕ
unit = 10 ^ 16

abbrev less : Fixed → Fixed → Bool
less (true, a) (true, b) = ltb b a
less (true, a) (false, b) = ltb 0 (a + b)
less (false, a) (true, b) = false
less (false, a) (false, b) = ltb a b

abbrev digits : ℕ → String → ℕ
digits n String.[] = n
digits n (String.◌∷◌ c s) = digits (n * 10 + (code c - 48)) s

abbrev fixed : Floats Fixed Fixed
fixed = record {
  literal = λ s d k. (s, d * 10 ^ (16 - k));
  lt = less;
  le = λ a b. not (less b a);
  is_finite = λ v. true;
  is_whole = λ v. v.1 % unit == 0;
  to_float = λ v. v;
  to_u64 = λ v. if v.0 then 0 else v.1 / unit;
  stod = λ s. some (false, digits 0 s * unit);
}

abbrev zero_params : MutableParams Fixed
zero_params = record {
  path_loss_db = (false, 0);
  awgn_snr_db = (false, 60 * unit);
  cfo_hz = (false, 0);
  tap0_delay_samples = (false, 0);
  tap0_gain_db = (false, 0);
  tap0_phase_rad = (false, 0);
  los_k_db = (false, 0);
}

abbrev block : BrokerLinkControl Fixed Fixed
block = record {
  shadow = zero_params;
  shadow_profile = default_profile fixed;
  profile_pending = false;
  take_effect_at_slot = 0;
  current_slot = 0;
  seqno = 0;
  force_inert_warnings = 0;
  dl_size_samples_hint = 0;
  slot_count_hint = 0;
}

abbrev links : Env
links = record { link_map = ("ue0-gnb0", some 0) ∷ ("gone", none) ∷ []; warmup_cap_slots = 3 }

abbrev fresh : ControlServer Fixed Fixed
fresh = new_server fixed links (λ c. block) (λ c. zero_params)

abbrev loss_body : String
loss_body =
    "{\"link_id\": \"ue0-gnb0\", \"param\": \"path_loss_db\", \"value\": 12, \"take_effect_at_slot\": 7}"

abbrev begin_body : String
begin_body = "{\"type\":\"batch_begin\",\"id\":\"b\"}"

abbrev staged_body : String
staged_body = "{\"batch_id\":\"b\",\"link_id\":\"ue0-gnb0\",\"param\":\"cfo_hz\",\"value\":90}"

abbrev gone_body : String
gone_body = "{\"link_id\":\"gone\",\"param\":\"cfo_hz\",\"value\":1}"

abbrev far_body : String
far_body = "{\"link_id\":\"ue0-gnb0\",\"param\":\"path_loss_db\",\"value\":51}"

answers : (handle_message fixed links fresh loss_body).0 ≡ applied 1 7
unfolding handle_message new_server init_broker_link_control parse_body get_string find
    emplace_field get_number check_scalar find_control find_param_spec in_range
    resolve_optional_batch apply_update lookup handle_scalar_update handle_batch_begin emplace
    modify serve_all batch_id json_escape check_scalar_fields stage
answers = refl

refuses_gone : (handle_message fixed links fresh gone_body).0 ≡ rejected (unknown_link "gone")
unfolding handle_message new_server init_broker_link_control parse_body get_string find
    emplace_field get_number check_scalar find_control find_param_spec in_range
    resolve_optional_batch apply_update lookup handle_scalar_update handle_batch_begin emplace
    modify serve_all batch_id json_escape check_scalar_fields stage
refuses_gone = refl

refuses_far : (handle_message fixed links fresh far_body).0 ≡ rejected (out_of_range "path_loss_db")
unfolding handle_message new_server init_broker_link_control parse_body get_string find
    emplace_field get_number check_scalar find_control find_param_spec in_range
    resolve_optional_batch apply_update lookup handle_scalar_update handle_batch_begin emplace
    modify serve_all batch_id json_escape check_scalar_fields stage
refuses_far = refl

-- A batch with one operation, after a request that is refused.
abbrev bodies : List String
bodies = far_body ∷ begin_body ∷ staged_body ∷ []

stages :
    lookup "b" (serve_all fixed links fresh bodies).open_batches
    ≡ some (scalar_op "ue0-gnb0" "cfo_hz" (false, 90 * unit) ∷ [])
unfolding handle_message new_server init_broker_link_control parse_body get_string find
    emplace_field get_number check_scalar find_control find_param_spec in_range
    resolve_optional_batch apply_update lookup handle_scalar_update handle_batch_begin emplace
    modify serve_all batch_id json_escape check_scalar_fields stage
stages = refl

serve_all-Sound_example : Sound fixed links (λ c. zero_params) (serve_all fixed links fresh bodies)
serve_all-Sound_example = serve_all-Sound fixed links (λ c. block) (λ c. zero_params) bodies

reply-Clean_example :
    (handle_message fixed links (serve_all fixed links fresh bodies) gone_body).1.updates_rejected
    ≡ 2
unfolding handle_message new_server init_broker_link_control parse_body get_string find
    emplace_field get_number check_scalar find_control find_param_spec in_range
    resolve_optional_batch apply_update lookup handle_scalar_update handle_batch_begin emplace
    modify serve_all batch_id json_escape check_scalar_fields stage
reply-Clean_example =
    ap (λ s. s.updates_rejected)
      (reply-Clean fixed links (λ c. block) (λ c. zero_params) bodies gone_body)

abbrev commit_fields : Fields Fixed
commit_fields = field "id" (string "b") (field "take_effect_at_slot" (number (false, 9 * unit)) end)

commit-Committed_example :
    Committed fixed links
      (serve_all fixed links fresh bodies)
      "b"
      (scalar_op "ue0-gnb0" "cfo_hz" (false, 90 * unit) ∷ [])
      (false, 9 * unit)
      (handle_batch_commit fixed links (serve_all fixed links fresh bodies) commit_fields)
unfolding handle_message new_server init_broker_link_control parse_body get_string find
    emplace_field get_number check_scalar find_control find_param_spec in_range
    resolve_optional_batch apply_update lookup handle_scalar_update handle_batch_begin emplace
    modify serve_all batch_id json_escape check_scalar_fields stage
commit-Committed_example =
    commit-Committed fixed links (λ c. block) (λ c. zero_params) bodies commit_fields "b"
      (scalar_op "ue0-gnb0" "cfo_hz" (false, 90 * unit) ∷ []) (false, 9 * unit) refl stages refl
      refl

abbrev loss_fields : Fields Fixed
loss_fields = field "link_id" (string "ue0-gnb0") (
    field "param" (string "path_loss_db") (
      field "value" (number (false, 12 * unit))
        (field "take_effect_at_slot" (number (false, 7 * unit)) end)))

abbrev loss_request : ScalarRequest Fixed
loss_request = record {
  link_id = "ue0-gnb0";
  control = 0;
  param = "path_loss_db";
  spec = record {
    name = "path_loss_db";
    min = (true, 200 * unit);
    max = (false, 50 * unit);
    is_int = false;
  };
  value = (false, 12 * unit);
  slot = (false, 7 * unit);
  batch = none;
}

scalar-GoesLive_example :
    GoesLive fixed links loss_request zero_params block
      ((handle_scalar_update fixed links fresh loss_fields).1.controls 0)
unfolding handle_message new_server init_broker_link_control parse_body get_string find
    emplace_field get_number check_scalar find_control find_param_spec in_range
    resolve_optional_batch apply_update lookup handle_scalar_update handle_batch_begin emplace
    modify serve_all batch_id json_escape check_scalar_fields stage
scalar-GoesLive_example =
    scalar-GoesLive fixed links fresh loss_fields loss_request zero_params refl refl (omega arith)

apply_update-Updated_example :
    (new : BrokerLinkControl Fixed Fixed) × (apply_update fixed block loss_request.spec
        (false, 3 * unit)
      ≡ some new)
    × Updated fixed "path_loss_db" (false, 3 * unit) block new
unfolding find_param_spec find_spec
apply_update-Updated_example =
    apply_update-Updated fixed "path_loss_db" (false, 3 * unit) block refl

read_string-json_escape_example : read_string "\"a\\\"b\\n\":1" ≡ ok ("a\"b\n", ":1")
unfolding json_escape
read_string-json_escape_example = read_string-json_escape "a\"b\n" ":1"

parse_body_total_example : parse_body fixed "{\"a\":[[],{}" ≢ err out_of_fuel
parse_body_total_example = parse_body_total fixed "{\"a\":[[],{}"
