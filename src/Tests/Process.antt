-- ===== src/Tests/Process.antt =====
-- A run of the process with two HTTPS requests, and its end.
use sentinel_adc.Base.{◌≡◌, ◌≤◌, ◌+◌, refl, Bool, true, false, some, [], In}
use sentinel_adc.Http.{Tls}
use sentinel_adc.Process.{
  Process, finished, launch, listens, signals, closes, cache_closes, db_closes, may, handle,
  happens, Reach, now, later, is_running,
}
use sentinel_adc.Process.Shutdown.{Stopped, graceful_exit}
use sentinel_adc.Process.Deadline.{shutdown_ends}
use sentinel_adc.Process.Https.{https_cut_off}
use sentinel_adc.Tests.Cache.{Kept, service}
use sentinel_adc.Tests.Analytics.{Nothing, db}

abbrev tls : Tls
tls = record { enabled = true; redirect = false; port = 443 }

abbrev started : Process Kept Nothing
started = launch (service false) (record (db []) { connected = true })

abbrev booted : Process Kept Nothing
booted = handle tls true (listens 1 2) started

abbrev signalled : Process Kept Nothing
signalled = handle tls true signals booted

abbrev closed : Process Kept Nothing
closed = handle tls true (closes 0) signalled

abbrev quit : Process Kept Nothing
quit = handle tls true (cache_closes 0 true) closed

abbrev gone : Process Kept Nothing
gone = handle tls true (db_closes 0 true) quit

ending : Reach tls true signalled quit
unfolding may handle
ending = later (later now (happens (closes 0) refl refl)) (happens (cache_closes 0 true) refl refl)

run : Reach tls true started gone
unfolding may handle
run =
    later
      (later
        (later (later (later now (happens (listens 1 2) refl refl)) (happens signals refl refl))
          (happens (closes 0) refl refl))
        (happens (cache_closes 0 true) refl refl))
      (happens (db_closes 0 true) refl refl)

gone_with : gone.exit ≡ some 0
unfolding handle
gone_with = refl

quit_runs : is_running quit.exit ≡ true
unfolding handle
quit_runs = refl

graceful_exit_example :
    Stopped gone
    × (gone.requests ≡ 0)
    × ((quits : Bool) × (done : Bool) × In (finished quits done) gone.callbacks
        × (quits ≡ true → gone.cache.client_ready ≡ false)
        × (done ≡ true → gone.analytics.connected ≡ false))
graceful_exit_example =
    graceful_exit tls true (service false) (record (db []) { connected = true }) gone run gone_with

shutdown_ends_example :
    (quit.clock ≤ booted.clock + 10000)
    × ((r : Process Kept Nothing) × Reach tls true quit r × (r.exit ≡ some 1))
shutdown_ends_example = shutdown_ends tls true booted quit ending quit_runs

https_cut_off_example :
    (p : Process Kept Nothing) × Reach tls true started p
    × (p.exit ≡ some 0)
    × (p.https_requests ≡ 2)
    × (p.https_accepting ≡ true)
https_cut_off_example =
    https_cut_off tls (service false) (record (db []) { connected = true }) 2 refl
