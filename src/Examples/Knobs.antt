-- ===== src/Examples/Knobs.antt =====
-- The checked flags of `converse` on concrete inputs.
use vitis.Prelude.{ℤ, pos, negsuc, true, [], some, ◌≡◌, refl, inl, inr}
use vitis.Text.{codes, has_prefix}
use vitis.Cli.Knobs.{Knobs, bad_max_turns, check_npeer, check_directory}

abbrev knobs : ℤ → ℤ → Knobs
knobs turns overall = record {
  max_turns = turns;
  terminator_kind = codes "sentinel";
  per_turn_timeout = pos 300;
  overall_timeout = overall;
  bus_kind = codes "inproc";
  log_backend = codes "file";
  working_dir = [];
  reply_style = codes "normal";
}

too_many : check_npeer (knobs (pos 501) (pos 0)) ≡ inl bad_max_turns
unfolding check_npeer
too_many = refl

negative_kept : check_npeer (knobs (pos 10) (negsuc 4)) ≡ inr (negsuc 4)
unfolding check_npeer
negative_kept = refl

cleaned_directory : check_directory (λ path. some true) (codes "/a/../b/") ≡ inr (codes "/b")
unfolding check_directory has_prefix
cleaned_directory = refl
