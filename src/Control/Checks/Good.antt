-- ===== src/Control/Checks/Good.antt =====
-- What a request has, once the validation of src/control_server.cpp let it pass.
use ocudu_channel.Common.{
  ◌≤◌, ◌<◌, ◌≡◌, refl, true, Option, none, some, List, String, str_eq, Floats, Result, ok, err,
  ◌>>=◌, OnOk, OnOk-ok, length, take, lookup, All, arith, if_both,
}
use ocudu_channel.Runtime.{TapSpec, ProfileShadow, max_taps}
use ocudu_channel.Control.Json.{JsonValue, string, number, boolean, object, array, Fields, find}
use ocudu_channel.Control.Params.{find_param_spec, in_range}
use ocudu_channel.Control.State.{Reason, StagedOp, Env, ControlServer, find_control}
use ocudu_channel.Control.Checks.{
  ScalarRequest, SwapRequest, check_scalar, check_scalar_fields, scalar_fields, slot_field,
  resolve_optional_batch, batch_named, open_batch, delay_in_range, gain_in_range,
}

module _ {F G : Type 0} (fl : Floats F G) (env : Env) where
  -- A batch that a request names is open.
  abbrev pub Joins : ControlServer F G → Option String → Type 0
  Joins s none = Unit
  Joins s (some bid) = (ops : List (StagedOp F G)) × (lookup bid s.open_batches ≡ some ops)

  pub record GoodScalar (s : ControlServer F G) (r : ScalarRequest F) : Type 0 where
    pub linked : find_control env r.link_id ≡ some r.control
    pub listed : find_param_spec fl r.param ≡ some r.spec
    pub ranged : in_range fl r.spec r.value ≡ true
    pub joins : Joins s r.batch

  -- The tap's ranges, and what a stored profile satisfies.
  abbrev pub TapOk : TapSpec F → Type 0
  TapOk t = (delay_in_range fl t ≡ true) × (gain_in_range fl t ≡ true)

  pub record GoodProfile (p : ProfileShadow F G) : Type 0 where
    pub some_tap : 0 < p.n_taps
    pub most_taps : p.n_taps ≤ max_taps
    pub whole_array : length p.taps ≡ max_taps
    pub ranged : All TapOk (take p.n_taps p.taps)

  pub record GoodSwap (s : ControlServer F G) (r : SwapRequest F G) : Type 0 where
    pub linked : find_control env r.link_id ≡ some r.control
    pub profile_ok : GoodProfile r.profile
    pub joins : Joins s r.batch

  open_batch-Joins :
      (s : ControlServer F G) (bid : String) (o : Option (List (StagedOp F G)))
      → lookup bid s.open_batches ≡ o
      → OnOk (Joins s) (open_batch s bid o)
  unfolding open_batch
  open_batch-Joins s bid none e = tt
  open_batch-Joins s bid (some ops) e = (ops, e)

  batch_named-Joins :
      (s : ControlServer F G) (v : Option (JsonValue F)) → OnOk (Joins s) (batch_named s v)
  unfolding batch_named
  batch_named-Joins s none = tt
  batch_named-Joins s (some (string bid)) =
      if_both (OnOk (Joins s)) (str_eq bid "") tt
        (open_batch-Joins s bid (lookup bid s.open_batches) refl)
  batch_named-Joins s (some (number n)) = tt
  batch_named-Joins s (some (boolean b)) = tt
  batch_named-Joins s (some (object o)) = tt
  batch_named-Joins s (some (array xs)) = tt

  check_scalar_fields-Good :
      (s : ControlServer F G) (fields : Fields F) (t : String × String × F) {r : ScalarRequest F}
      → check_scalar_fields fl env s fields t ≡ ok r
      → (find_control env r.link_id ≡ some r.control)
        × (find_param_spec fl r.param ≡ some r.spec)
        × (in_range fl r.spec r.value ≡ true)
        × (resolve_optional_batch fl env s fields ≡ ok r.batch)
  unfolding check_scalar_fields slot_field
  check_scalar_fields-Good s fields (link_id, param, value) e = ground arith

  pub resolve-Joins :
      (s : ControlServer F G) (fields : Fields F) {batch : Option String}
      → resolve_optional_batch fl env s fields ≡ ok batch
      → Joins s batch
  unfolding resolve_optional_batch
  resolve-Joins s fields e = OnOk-ok (Joins s) e (batch_named-Joins s (find "batch_id" fields))

  scalar_chain :
      (s : ControlServer F G) (fields : Fields F) (m : Result Reason (String × String × F))
      {r : ScalarRequest F}
      → (m >>= check_scalar_fields fl env s fields) ≡ ok r
      → GoodScalar s r
  scalar_chain s fields (err reason) e = cc
  scalar_chain s fields (ok t) e =
      let (linked, listed, ranged, joined) = check_scalar_fields-Good s fields t e in
      record {
        linked = linked;
        listed = listed;
        ranged = ranged;
        joins = resolve-Joins s fields joined;
      }

  pub check_scalar-Good :
      (s : ControlServer F G) (fields : Fields F) {r : ScalarRequest F}
      → check_scalar fl env s fields ≡ ok r
      → GoodScalar s r
  unfolding check_scalar
  check_scalar-Good s fields e =
      scalar_chain s fields
        (scalar_fields (find "link_id" fields) (find "param" fields) (find "value" fields)) e
