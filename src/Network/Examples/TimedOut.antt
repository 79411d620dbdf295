-- ===== src/Network/Examples/TimedOut.antt =====
-- `connect_timeo` where the alarm goes off.
use unix_advanced_programing.Prelude.{ℕ, refl, Bool, false, some, [], ◌==◌, if◌then◌else◌}
use unix_advanced_programing.Prelude.Int.{negsuc}
use unix_advanced_programing.Posix.{Errno, eintr, einval}
use unix_advanced_programing.Unp.Wrappers.Effects.{Console}
use unix_advanced_programing.Network.ConnectTimeout.{Calls, connect_timeo}
use unix_advanced_programing.Network.ConnectTimeout.Restores.{
  IsKernel, Restored, connect_timeo_restores,
}

pub record Process : Type 0 where
  handlers : ℕ → ℕ
  left : ℕ
  sockets : ℕ → Bool
  err : Errno

-- Handler 1 is for the alarm, and `connect` waits for it.
abbrev calls : Calls
calls = record {
  World = Process;
  Handler = ℕ;
  sa_interrupt = 1;
  sa_restart = 2;
  sig_err = 0;
  connect_alarm_handler = 1;
  sigaction = λ signo h flags w. (
    some (w.handlers signo),
    record w { handlers = λ t. if t == signo then h else w.handlers t },
  );
  alarm = λ n w. (w.left, record w { left = n });
  connect = λ fd w. (negsuc 0, record w { left = 0; err = eintr });
  close = λ fd w. record w { sockets = λ m. if m == fd then false else w.sockets m };
  errno = λ w. w.err;
  set_errno = λ e w. record w { err = e };
}

calls-IsKernel : IsKernel calls
calls-IsKernel = record {
  action = λ w. w.handlers;
  pending = λ w. w.left;
  opened = λ w. w.sockets;
  sigaction_law = λ h flags w. (refl, (λ t. refl), refl, (λ m. refl), refl);
  alarm_law = λ n w. (refl, (λ t. refl), refl, (λ m. refl), refl);
  connect_law = λ fd w. ((λ t. refl), (λ m. refl));
  close_law = λ fd w. ((λ t. refl), (λ m. refl));
  errno_law = λ e w. ((λ t. refl), (λ m. refl), refl);
}

abbrev console : Console Process
console = record {
  world = record { handlers = λ t. 7; left = 0; sockets = λ m. m == 3; err = einval };
  printed = [];
}

connect_timeo_restores_example :
    Restored calls-IsKernel 3 75 console (connect_timeo calls 3 75 console)
connect_timeo_restores_example = connect_timeo_restores calls-IsKernel 3 75 console
