-- ===== src/Lib.antt =====
-- The logic of the EncosTech command line tool: the arguments of its commands, the trajectories that
-- it plays, the firmware that it downloads, the slaves that it configures, the
-- control loop of its play command, and the counters, clocks and names of its other commands.
--
-- Parts, and the files that model them:
--   Target: cli_command.cc, cli_command.h. A target is text like `Can:can0:0:1`. Target/Split is
--     SplitColonSeparated with its `@` quotes; Target/Integer is ParseInteger, ParseInt32 and
--     ParseUint16; Target/Motor holds the target structs and ParseMotorTarget, ParseScanTarget,
--     ParseSensorTarget, ParsePmsTarget and ParseGloveTarget.
--   Command: cli_command.cc, cli_command.h. Command/Flags is ExtractCanFdFlag, Command/Config is
--     ParseCliCommand, Command/Control ParseControlCommand, Command/Sensor ParseScanCommand,
--     ParseImuCommand and ParseBatteryCommand, Command/Pms ParsePmsCommand, Command/Glove
--     ParseGloveCommand, and Command/Table the table that `scan` prints. Each reads its target with
--     the functions of Target.
--   Trajectory: src/csv_parser.cc, src/trajectory_csv_parser.cc and src/trajectory_player.cc with their
--     headers. Trajectory/Connection reads and prints the motor of a column, Trajectory/Csv is
--     ParseTrajectoryCsv, and Trajectory/Player is EvaluateTrajectory, FeedbackPrinterSchedule and
--     GetControlLoopOverrun.
--   Play: src/cli/play.cc, src/cli/play.h. Play/Clock is UpdatePlayPauseClock and the ticks, Play/Loss
--     is PlayLossWindow, Play/Tui ApplyPlayTuiAction. TrajectoryRunner is in Play/Requests, what
--     signals and the keys of the live table do to the shared variables, Play/Motors, what is sent to
--     the motors and read from them, Play/Loop, the control loop of Run with its phases, and Play/Logs,
--     EnableLogs, DisableLogs and ToggleLogsFromTui. Play/Opening and Play/Setup are Initialize and
--     ScanMotors, over the driver as a parameter. Play/Snapshots is SortPlayMotorSnapshots, and
--     Play/Names the names, the log arguments and the checks of RunPlayCommand. The loop evaluates the
--     trajectory with Trajectory/Player and keeps its time with Play/Clock.
--   Stress: src/cli/stress.cc, src/cli/stress.h. The totals, the rows of a report, bus addresses.
--   Firmware: src/cli/firmware_download.cc and src/cli/firmware_download_platform.cc. Firmware/Load is
--     LoadOtaFirmware, Firmware/Package MakeOtaPackage with the hash of Firmware/Sha256,
--     Firmware/Status ParseOtaStatus and CheckOtaResult, Firmware/Transfer Command, UnescapeMount and
--     WritePackage, and Firmware/Download DownloadFirmware, which calls the others.
--   Slave: src/cli/slave_config.cc. Slave/Request and Slave/Items are ParseSlaveConfig, and
--     Slave/Packets holds Packet and the Command, Scan and Exchange of UdpConfig, and Slave/Run
--     RunSlaveConfig behind the parser and FormatSlaveTable.
--   Sending and Specs: main.cc. Sending is SendControlCommand on the commands of Command/Control,
--     Sending/Config SetConfigValue on those of Command/Config, and Specs ParseAdapterArg and
--     ResolveAdapterSpecs.
--   DriverVersion: src/driver_version.cc. InterfaceName: src/cli/interface_name.cc.
--   Bench: src/cli/bench.cc, the target of the bench command.
--   AdapterUtils: src/cli/adapter_cli_utils.cc, the CAN timing options.
--   Base and Number hold what these share: exceptions as values (Base/Exceptions), text as bytes,
--     signed integers, stable insertion sort, and std::stoi, std::stoll, std::stoul and
--     std::to_string of the standard library.
--
-- How the code is written down. A function that may throw returns a Result; an error keeps the fixed
-- text of a message and the text that the message quotes, not the sentence around it. Loops are
-- structural recursion on the text or the list; an index loop over a vector becomes recursion on the
-- list of its elements, or on the rounds left. `decimal n` runs on fuel n + 1, which is enough since
-- each round divides by ten. Unsigned wrap-around is written out as a remainder.
--
-- DownloadFirmware passes on a session: the world, of a type that is a parameter, and a log of what is
-- sent to the gateway and written to its volume. What the platform answers is the record Platform. Its
-- two loops run on fuel; a round sleeps 200 or 500 ms before deadlines of 40 s and 100 s, so that 201
-- rounds are enough on a clock that keeps what IsForward says. WritePackage runs on the list of what
-- the calls of write return. The datagrams of a scan or a command are the list of those that arrive
-- before the deadline. A UUID is kept as bytes where the code compares hexadecimal text.
--
-- A round of the control loop is given the events before each of its reads of a shared variable, the two
-- times that it asks for and what each motor reports; the loop runs on the list of its rounds. The calls
-- of the driver are collected in order. Where C++ would read a vector out of range, which is undefined,
-- the model fails with out_of_range. The answers of the driver and the file system to the logs are
-- arguments too.
--
-- Parameters, and limits. Floating point is a parameter: Base/Floats for the command line,
-- Trajectory/Numbers for trajectories, PlayNumbers and Comparisons of Play and the Doubles of
-- AdapterUtils. The one law assumed is that of two numbers at most one is less than the other, for the
-- order of the live table. The two seconds of a phase are compared in nanoseconds. std::sort is
-- modelled as stable insertion sort, which gives the order and the rows, not the order of equal rows
-- that std::sort may choose. The numbers of the standard library are read in the C locale, without the
-- prefix 0b. Times of the steady clock are natural numbers. Sizes of a terminal have no upper bound.
--
-- Of the platform, inet_pton of the C library is a parameter, which gives the address as a number with
-- its first byte the highest.
--
-- Not modelled: the search for USB devices under /sys and everything for Windows; the motor driver,
-- threads, sockets, files and terminals, the FTXUI panels, argparse, JSON, and the printing of
-- floating-point values. Of main.cc only the functions above are modelled, and of play.cc not the
-- counters of packets and the drawing of the table.
pub mod Base
pub mod Number
pub mod Target
pub mod Command
pub mod Trajectory
pub mod Play
pub mod Stress
pub mod DriverVersion
pub mod Firmware
pub mod Slave
pub mod Sending
pub mod Specs
pub mod InterfaceName
pub mod AdapterUtils
pub mod Bench
pub mod Tests
