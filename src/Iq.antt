-- ===== src/Iq.antt =====
-- include/ocudu_gpu_channel/iq.h: a sample and the operations on it.
use ocudu_channel.Common.{Signal}

pub record IqSample (G : Type 0) : Type 0 where
  pub i : G
  pub q : G

module _ {F G : Type 0} (sg : Signal F G) where
  open sg use {add_float, sub_float, mul_float, cos, sin, add, mul, widen}

  abbrev pub narrow : F → G
  narrow = sg.floats.to_float

  -- `IqSample{}`
  abbrev pub silence : IqSample G
  silence = record { i = sg.zero_float; q = sg.zero_float }

  unfoldable pub add_sample : IqSample G → IqSample G → IqSample G
  add_sample a b = record { i = add_float a.i b.i; q = add_float a.q b.q }

  unfoldable pub scale : IqSample G → G → IqSample G
  scale v factor = record { i = mul_float v.i factor; q = mul_float v.q factor }

  -- By the angle of these two, which `rotate` computes from it.
  unfoldable pub rotate_by : IqSample G → G → G → IqSample G
  rotate_by v c s = record {
    i = sub_float (mul_float v.i c) (mul_float v.q s);
    q = add_float (mul_float v.i s) (mul_float v.q c);
  }

  unfoldable pub rotate : IqSample G → F → IqSample G
  unfolding rotate_by
  rotate v phase_rad = rotate_by v (narrow (cos phase_rad)) (narrow (sin phase_rad))

  unfoldable pub power : IqSample G → F
  power v = add (mul (widen v.i) (widen v.i)) (mul (widen v.q) (widen v.q))
