-- ===== src/Worker/Polling.antt =====
-- `apply_polling_strategy` of src/logging/impl/backend_worker.cc: the tiers of waiting while the
-- queue stays empty.
pub mod Tiers
use femtolog.Prelude.{ℕ, ◌+◌, ◌*◌, List, [], Bool, true, false, ltb, leb, if◌then◌else◌}
use femtolog.Word.{add_size}
use femtolog.Worker.{Worker}

-- Return at once, `_mm_pause` or yield, or sleep for some nanoseconds.
pub data Wait : Type 0 where
  busy : Wait
  pause : Wait
  sleep_for : ℕ → Wait

unfoldable pub wait_for : ℕ → Wait
wait_for idle =
    if leb idle 2048
    then busy
    else (if leb idle 4096
        then pause
        else (if leb idle 8192
            then sleep_for 32
            else (if leb idle 16384
                then sleep_for 64
                else (if leb idle 32768
                    then sleep_for 128
                    else (if leb idle 65536
                        then sleep_for 256
                        else (if leb idle 131072
                            then sleep_for 512
                            else (if leb idle 262144
                                then sleep_for 1000
                                else (if leb idle 524288
                                    then sleep_for 10000
                                    else sleep_for 100000))))))))

unfoldable pub apply_polling_strategy : Worker → Bool → Worker × Wait
unfolding wait_for
apply_polling_strategy w true = (record w { idle_iterations = 0 }, busy)
apply_polling_strategy w false = (
  record w { idle_iterations = add_size w.idle_iterations 1 },
  wait_for (add_size w.idle_iterations 1),
)
