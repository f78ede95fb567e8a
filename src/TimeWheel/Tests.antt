-- ===== src/TimeWheel/Tests.antt =====
-- A connection on a new wheel with a timeout of one tick.
use wind_cloud_v.Shared.{◌≡◌, refl, true, false, [], ◌∷◌, none, arith}
use wind_cloud_v.Shared.Int.{pos}
use wind_cloud_v.TimeWheel.{
  Conns, TimeWheel, time_wheel_refresh, time_wheel_add, join_prev, time_wheel_tick,
}
use wind_cloud_v.TimeWheel.Slots.{IsLinked, absent}
use wind_cloud_v.TimeWheel.Unlink.{without}
use wind_cloud_v.TimeWheel.Wheel.{IsWheel, Lists, dropped}
use wind_cloud_v.TimeWheel.Tick.{fired, time_wheel_tick-fired}
use wind_cloud_v.TimeWheel.Refresh.{IsPlacedAt, pushed, time_wheel_refresh-IsWheel}

abbrev conns : Conns
conns c = record {
  fd = pos 7;
  ctx = record { user_id = pos 1; current_path = b'/' ∷ []; current_dir_id = 0 };
  expire_tick = 0;
  wheel_slot = pos 0;
  has_node = false;
  prev = none;
  next = none;
}

abbrev wheel : TimeWheel
wheel = record { slots = λ i. none; current_tick = 58; timeout_sec = 1 }

abbrev no_lists : Lists
no_lists i = []

new-IsWheel : IsWheel (wheel, conns) no_lists
unfolding IsLinked absent
new-IsWheel = record {
  slots = record { linked = λ i. refl; placed = λ i c h. absurd (ground (arith, h)) };
  held = λ c h. absurd (ground (arith, h));
}

time_wheel_refresh-IsWheel_example :
    IsPlacedAt 59 3 (dropped 3 no_lists) (time_wheel_refresh true 3 (wheel, conns))
time_wheel_refresh-IsWheel_example =
    time_wheel_refresh-IsWheel wheel conns no_lists new-IsWheel 3 true refl

abbrev refreshed : TimeWheel × Conns
refreshed = time_wheel_refresh true 3 (wheel, conns)

refreshed-IsWheel : IsWheel refreshed (pushed 59 3 (dropped 3 no_lists))
refreshed-IsWheel = (time_wheel_refresh-IsWheel wheel conns no_lists new-IsWheel 3 true refl).0

time_wheel_tick-fired_example : (time_wheel_tick 2 refreshed).0 ≡ 3 ∷ []
unfolding time_wheel_refresh time_wheel_add join_prev fired without
time_wheel_tick-fired_example =
    time_wheel_tick-fired 2 refreshed.0 refreshed.1 (pushed 59 3 (dropped 3 no_lists))
      refreshed-IsWheel (omega arith)
