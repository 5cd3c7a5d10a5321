-- ===== src/Config/Text/Examples.antt =====
-- The number of samples of a queue, and the name of a step, as texts of a file.
use ocudu_channel.Common.{◌≡◌, ◌↔◌, refl, ok}
use ocudu_channel.Config.{cfo, cuda}
use ocudu_channel.Config.Text.{
  is_digit, empty_text, parse_u64, parse_backend, parse_model_step_type, backend_name,
  step_type_name,
}
use ocudu_channel.Config.Text.Names.{parse-names}
use ocudu_channel.Config.Text.Numbers.{all_digits, text_length, decimal, parse_u64-decimal}

parse_u64-decimal_example : parse_u64 "614400" "queue_samples" ≡ ok 614400
unfolding all_digits is_digit empty_text text_length decimal
parse_u64-decimal_example = parse_u64-decimal "614400" "queue_samples" refl refl

parse-names_example :
    ((parse_model_step_type "cfo" ≡ ok cfo) ↔ ("cfo" ≡ step_type_name cfo))
    × ((parse_backend "cfo" ≡ ok cuda) ↔ ("cfo" ≡ backend_name cuda))
parse-names_example = parse-names "cfo" cfo cuda
