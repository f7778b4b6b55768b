-- ===== src/App/Entry/Settled.antt =====
-- What the settings of internal/config make of the controller that internal/app/app.go builds.
use preoomkiller_controller.Config.{Config}
use preoomkiller_controller.Controller.State.{State}
