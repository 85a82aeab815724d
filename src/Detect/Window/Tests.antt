-- ===== src/Detect/Window/Tests.antt =====
-- Runs of the rolling counter.
use network_l4_monitoring_co.Base.{◌≡◌, refl}
use network_l4_monitoring_co.Detect.Window.{new, record_event, count_window}

-- Two events in one second and one in the next: a window of one second sees the last.
counts_last_second :
    count_window
      (record_event (record_event (record_event (new 1) 5) 6) 1_000_000_007)
      1_000_000_008
    ≡ 1
unfolding new record_event count_window
counts_last_second = refl
